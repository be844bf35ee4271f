-- ===== src/Network/Arrivals.antt =====
-- One message from each of the other parties, in the order of their numbers: what is received, and
-- what is sent to a window of parties.
use linux_copy.Common.{
  ℕ, zero, suc, ◌+◌, ◌<◌, ◌≤◌, ◌≡◌, ◌≢◌, refl, ap, ◌∙◌, arith, ◌==◌, ==_ne, ==_iff, if◌then◌else◌,
  List, [], ◌∷◌, length, get_or, Bool-cases, inl, inr, ℕ_discrete,
}
use linux_copy.Network.{send_window}
use linux_copy.Network.Run.{Event, out, inc, Runs, done, sends, sent_to, received_from}

module _ {M : Type 0} where
  -- The messages from the parties `p` to `p + n - 1` but `me`.
  abbrev pub arrivals : ℕ → ℕ → ℕ → (ℕ → M) → List (Event M)
  arrivals me p zero f = []
  arrivals me p (suc n) f =
      let rest = arrivals me (suc p) n f in if me == p then rest else inc p (f p) ∷ rest

  -- The same as a list by number, with `own` at the place of `me`.
  abbrev pub arrived : ℕ → ℕ → ℕ → (ℕ → M) → M → List M
  arrived me p zero f own = []
  arrived me p (suc n) f own = (if me == p then own else f p) ∷ arrived me (suc p) n f own

  pub sent_to-arrivals : (me p n : ℕ) (f : ℕ → M) (j : ℕ) → sent_to j (arrivals me p n f) ≡ []
  sent_to-arrivals me p zero f j = refl
  sent_to-arrivals me p (suc n) f j = elim (Bool-cases (me == p)) [
    | inl own ↦ rw own (sent_to-arrivals me (suc p) n f j)
    | inr other ↦ rw other (sent_to-arrivals me (suc p) n f j)
  ]

  -- Nothing comes from a party before the first, or from the party itself.
  pub received_from-arrivals_before :
      (me p n : ℕ) (f : ℕ → M) (j : ℕ) → j < p → received_from j (arrivals me p n f) ≡ []
  received_from-arrivals_before me p zero f j h = refl
  received_from-arrivals_before me p (suc n) f j h = elim (Bool-cases (me == p)) [
    | inl own ↦ rw own (received_from-arrivals_before me (suc p) n f j (omega arith))
    | inr other ↦
        rw (other, ==_ne p j (omega arith))
          (received_from-arrivals_before me (suc p) n f j (omega arith))
  ]

  pub received_from-arrivals_after :
      (me p n : ℕ) (f : ℕ → M) (j : ℕ) → p + n ≤ j → received_from j (arrivals me p n f) ≡ []
  received_from-arrivals_after me p zero f j h = refl
  received_from-arrivals_after me p (suc n) f j h = elim (Bool-cases (me == p)) [
    | inl own ↦ rw own (received_from-arrivals_after me (suc p) n f j (omega arith))
    | inr other ↦
        rw (other, ==_ne p j (omega arith))
          (received_from-arrivals_after me (suc p) n f j (omega arith))
  ]

  pub received_from-arrivals_own :
      (me p n : ℕ) (f : ℕ → M) → received_from me (arrivals me p n f) ≡ []
  received_from-arrivals_own me p zero f = refl
  received_from-arrivals_own me p (suc n) f = elim (ℕ_discrete me p) [
    | yes e ↦ rw ((==_iff me p).1 e) (received_from-arrivals_own me (suc p) n f)
    | no ne ↦
        rw (==_ne me p ne, ==_ne p me (omega arith)) (received_from-arrivals_own me (suc p) n f)
  ]

  pub received_from-arrivals :
      (me p n : ℕ) (f : ℕ → M) (j : ℕ)
      → j ≢ me
      → p ≤ j
      → j < p + n
      → received_from j (arrivals me p n f) ≡ f j ∷ []
  received_from-arrivals me p zero f j ne low high = absurd (omega arith)
  received_from-arrivals me p (suc n) f j ne low high = elim (ℕ_discrete p j) [
    | yes e ↦
        rw (==_ne me p (omega arith), (==_iff p j).1 e)
          (ap (λ k. f k ∷ received_from j (arrivals me (suc p) n f)) e
            ∙ ap (◌∷◌ (f j)) (received_from-arrivals_before me (suc p) n f j (omega arith)))
    | no far ↦ elim (Bool-cases (me == p)) [
      | inl own ↦ rw own (received_from-arrivals me (suc p) n f j ne (omega arith) (omega arith))
      | inr other ↦
          rw (other, ==_ne p j far)
            (received_from-arrivals me (suc p) n f j ne (omega arith) (omega arith))
    ]
  ]

  pub length-arrived : (me p n : ℕ) (f : ℕ → M) (own : M) → length (arrived me p n f own) ≡ n
  length-arrived me p zero f own = refl
  length-arrived me p (suc n) f own = ap suc (length-arrived me (suc p) n f own)

  -- What `send_window` does.
  abbrev pub window : ℕ → (ℕ → ℕ) → ℕ → List M → List (Event M)
  window me wrap j [] = []
  window me wrap j (o ∷ os) =
      let rest = window me wrap (suc j) os in if wrap j == me then rest else out (wrap j) o ∷ rest

  pub window-Runs :
      (me : ℕ) (wrap : ℕ → ℕ) (j : ℕ) (os : List M)
      → Runs M (Unit {0}) (send_window me wrap j os) (window me wrap j os) tt
  unfolding send_window
  window-Runs me wrap j [] = done
  window-Runs me wrap j (o ∷ os) = elim (Bool-cases (wrap j == me)) [
    | inl own ↦ rw own (window-Runs me wrap (suc j) os)
    | inr other ↦ rw other (sends (window-Runs me wrap (suc j) os))
  ]

  pub received_from-window :
      (me : ℕ) (wrap : ℕ → ℕ) (j k : ℕ) (os : List M) → received_from k (window me wrap j os) ≡ []
  received_from-window me wrap j k [] = refl
  received_from-window me wrap j k (o ∷ os) = elim (Bool-cases (wrap j == me)) [
    | inl own ↦ rw own (received_from-window me wrap (suc j) k os)
    | inr other ↦ rw other (received_from-window me wrap (suc j) k os)
  ]

  pub sent_to-window_own :
      (me : ℕ) (wrap : ℕ → ℕ) (j : ℕ) (os : List M) → sent_to me (window me wrap j os) ≡ []
  sent_to-window_own me wrap j [] = refl
  sent_to-window_own me wrap j (o ∷ os) = elim (Bool-cases (wrap j == me)) [
    | inl own ↦ rw own (sent_to-window_own me wrap (suc j) os)
    | inr other ↦ rw (other, other) (sent_to-window_own me wrap (suc j) os)
  ]

  -- A party outside the window is sent nothing.
  pub sent_to-window_outside :
      (me : ℕ) (wrap : ℕ → ℕ) (j k : ℕ) (os : List M)
      → ((i : ℕ) → j ≤ i → i < j + length os → wrap i ≢ k)
      → sent_to k (window me wrap j os) ≡ []
  sent_to-window_outside me wrap j k [] h = refl
  sent_to-window_outside me wrap j k (o ∷ os) h =
      let rest =
        sent_to-window_outside me wrap (suc j) k os
          (λ i low high. h i (omega arith) (omega arith)) in
      elim (Bool-cases (wrap j == me)) [
        | inl own ↦ rw own rest
        | inr other ↦ rw (other, ==_ne (wrap j) k (h j (omega arith) (omega arith))) rest
      ]

  -- A party in the window is sent the stream of its place.
  pub sent_to-window :
      (me : ℕ) (wrap : ℕ → ℕ) (j k q : ℕ) (os : List M) (d : M)
      → q < length os
      → k ≢ me
      → wrap (j + q) ≡ k
      → ((i : ℕ) → j ≤ i → i < j + length os → wrap i ≡ k → i ≡ j + q)
      → sent_to k (window me wrap j os) ≡ get_or os q d ∷ []
  sent_to-window me wrap j k q [] d hq ne e only = absurd (omega arith)
  sent_to-window me wrap j k zero (o ∷ os) d hq ne e only =
      let here : wrap j ≡ k = ap wrap {x = j} {y = j + 0} (omega arith) ∙ e in
      rw (==_ne (wrap j) me (λ e'. omega arith), (==_iff (wrap j) k).1 here)
        (ap (◌∷◌ o) (
          sent_to-window_outside me wrap (suc j) k os
            (λ i low high same. omega (arith, only i (omega arith) (omega arith) same))))
  sent_to-window me wrap j k (suc q) (o ∷ os) d hq ne e only =
      let rest =
        sent_to-window me wrap (suc j) k q os d (omega arith) ne
          (ap wrap {x = suc j + q} {y = j + suc q} (omega arith) ∙ e)
          (λ i low high same. omega (arith, only i (omega arith) (omega arith) same)) in
      let far : wrap j ≢ k = λ same. omega (arith, only j (omega arith) (omega arith) same) in
      elim (Bool-cases (wrap j == me)) [
        | inl own ↦ rw own rest
        | inr other ↦ rw (other, ==_ne (wrap j) k far) rest
      ]

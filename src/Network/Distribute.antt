-- ===== src/Network/Distribute.antt =====
-- `send_respective`: what is sent, and what a run of it is.
use linux_copy.Common.{
  ℕ, zero, suc, ◌+◌, ◌<◌, ◌≡◌, ◌≢◌, refl, ap, ◌∙◌, arith, ◌==◌, ==_ne, ==_iff, if◌then◌else◌, true,
  false, List, [], ◌∷◌, length, get_or, Bool-cases, inl, inr,
}
use linux_copy.Network.{send, send_from}
use linux_copy.Network.Run.{Event, out, Runs, done, sends, sent_to, received_from}
use linux_copy.Network.Inversion.{ret_inversion, send_inversion, run_as}

module _ {M : Type 0} where
  abbrev pub dispatch : ℕ → ℕ → List M → List (Event M)
  dispatch me j [] = []
  dispatch me j (o ∷ os) =
      let rest = dispatch me (suc j) os in if j == me then rest else out j o ∷ rest

  pub dispatch-Runs :
      (me j : ℕ) (os : List M) → Runs M (Unit {0}) (send_from me j os) (dispatch me j os) tt
  unfolding send_from
  dispatch-Runs me j [] = done
  dispatch-Runs me j (o ∷ os) = elim (Bool-cases (j == me)) [
    | inl own ↦ rw own (dispatch-Runs me (suc j) os)
    | inr other ↦ rw other (sends (dispatch-Runs me (suc j) os))
  ]

  send_from_own :
      (me j : ℕ) (o : M) (os : List M)
      → (j == me) ≡ true
      → send_from me j (o ∷ os) ≡ send_from me (suc j) os
  unfolding send_from
  send_from_own me j o os e = rw e

  send_from_other :
      (me j : ℕ) (o : M) (os : List M)
      → (j == me) ≡ false
      → send_from me j (o ∷ os) ≡ send j o (send_from me (suc j) os)
  unfolding send_from
  send_from_other me j o os e = rw e

  pub dispatch_inversion :
      (me j : ℕ) (os : List M) {trace : List (Event M)} {u : Unit {0}}
      → Runs M (Unit {0}) (send_from me j os) trace u
      → trace ≡ dispatch me j os
  unfolding send_from
  dispatch_inversion me j [] r = (ret_inversion r).0
  dispatch_inversion me j (o ∷ os) r = elim (Bool-cases (j == me)) [
    | inl own ↦ rw own (dispatch_inversion me (suc j) os (run_as (send_from_own me j o os own) r))
    | inr other ↦
        let (rest, e, r') = send_inversion (run_as (send_from_other me j o os other) r) in
        rw other (e ∙ ap (◌∷◌ (out j o)) (dispatch_inversion me (suc j) os r'))
  ]

  pub received_from-dispatch : (me j k : ℕ) (os : List M) → received_from k (dispatch me j os) ≡ []
  received_from-dispatch me j k [] = refl
  received_from-dispatch me j k (o ∷ os) = elim (Bool-cases (j == me)) [
    | inl own ↦ rw own (received_from-dispatch me (suc j) k os)
    | inr other ↦ rw other (received_from-dispatch me (suc j) k os)
  ]

  before : (me j k : ℕ) (os : List M) → k < j → sent_to k (dispatch me j os) ≡ []
  before me j k [] h = refl
  before me j k (o ∷ os) h = elim (Bool-cases (j == me)) [
    | inl own ↦ rw own (before me (suc j) k os (omega arith))
    | inr other ↦ rw (other, ==_ne j k (omega arith)) (before me (suc j) k os (omega arith))
  ]

  pub sent_to-dispatch_own : (me j : ℕ) (os : List M) → sent_to me (dispatch me j os) ≡ []
  sent_to-dispatch_own me j [] = refl
  sent_to-dispatch_own me j (o ∷ os) = elim (Bool-cases (j == me)) [
    | inl own ↦ rw own (sent_to-dispatch_own me (suc j) os)
    | inr other ↦ rw (other, other) (sent_to-dispatch_own me (suc j) os)
  ]

  -- Each of the other parties is sent the stream of its number.
  pub sent_to-dispatch :
      (me j k : ℕ) (os : List M) (d : M)
      → k < length os
      → j + k ≢ me
      → sent_to (j + k) (dispatch me j os) ≡ get_or os k d ∷ []
  sent_to-dispatch me j k [] d h ne = absurd (omega arith)
  sent_to-dispatch me j zero (o ∷ os) d h ne =
      rw (==_ne j me (omega arith), (==_iff j (j + 0)).1 (omega arith))
        (ap (◌∷◌ o) (before me (suc j) (j + 0) os (omega arith)))
  sent_to-dispatch me j (suc k) (o ∷ os) d h ne =
      later
      ∙ ap (λ n. sent_to n (dispatch me (suc j) os)) {x = j + suc k} {y = suc j + k} (omega arith)
      ∙ sent_to-dispatch me (suc j) k os d (omega arith) (omega arith)
    where
      later :
          sent_to (j + suc k) (dispatch me j (o ∷ os))
          ≡ sent_to (j + suc k) (dispatch me (suc j) os)
      later = elim (Bool-cases (j == me)) [
        | inl own ↦ rw own
        | inr other ↦ rw (other, ==_ne j (j + suc k) (omega arith))
      ]

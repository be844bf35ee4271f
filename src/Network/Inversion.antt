-- ===== src/Network/Inversion.antt =====
-- The runs of composed programs, taken apart and put together.
use linux_copy.Common.{
  ℕ, zero, suc, ◌+◌, ◌<◌, ◌≤◌, ◌≡◌, ◌≢◌, refl, ap, ◌∙◌, sym, subst, fun_ext, arith, ◌==◌, ==_ne,
  ==_iff, ℕ_discrete, Bool-cases, inl, inr, if◌then◌else◌, true, false, List, [], ◌∷◌, ◌++◌,
}
use linux_copy.Network.{Proc, ret, send, receive, abort, ◌>>=◌, send_each}
use linux_copy.Network.Run.{Event, out, inc, Runs, done, sends, receives, sent_to, received_from}

module _ {M : Type 0} where
  pub ret_inversion :
      {A : Type 0} {a b : A} {trace : List (Event M)}
      → Runs M A (ret a) trace b
      → (trace ≡ []) × (a ≡ b)
  ret_inversion done = (refl, refl)

  pub send_inversion :
      {A : Type 0} {j : ℕ} {m : M} {p : Proc M A} {trace : List (Event M)} {a : A}
      → Runs M A (send j m p) trace a
      → (rest : List (Event M)) × (trace ≡ out j m ∷ rest) × Runs M A p rest a
  send_inversion (sends {trace = rest} r) = (rest, refl, r)

  pub receive_inversion :
      {A : Type 0} {j : ℕ} {k : M → Proc M A} {trace : List (Event M)} {a : A}
      → Runs M A (receive j k) trace a
      → (m : M) × (rest : List (Event M)) × (trace ≡ inc j m ∷ rest) × Runs M A (k m) rest a
  receive_inversion (receives {m = m} {trace = rest} r) = (m, rest, refl, r)

  -- A run of a program is one of the program it is equal to.
  pub run_as :
      {A : Type 0} {p q : Proc M A} {trace : List (Event M)} {a : A}
      → p ≡ q
      → Runs M A p trace a
      → Runs M A q trace a
  run_as {A} {trace = trace} {a = a} e r = subst (λ p. Runs M A p trace a) e r

  pub bind_inversion :
      {A B : Type 0} (p : Proc M A) {k : A → Proc M B} {trace : List (Event M)} {b : B}
      → Runs M B (p >>= k) trace b
      → (first second : List (Event M)) × (a : A) × (trace ≡ first ++ second)
        × Runs M A p first a
        × Runs M B (k a) second b
  bind_inversion (ret a) {trace = trace} r = ([], trace, a, refl, done, r)
  bind_inversion (send j m p) r =
      let (rest, e, r') = send_inversion r in
      let (first, second, a, e', before, after) = bind_inversion p r' in
      (out j m ∷ first, second, a, e ∙ ap (◌∷◌ (out j m)) e', sends before, after)
  bind_inversion (receive j k) r =
      let (m, rest, e, r') = receive_inversion r in
      let (first, second, a, e', before, after) = bind_inversion (k m) r' in
      (inc j m ∷ first, second, a, e ∙ ap (◌∷◌ (inc j m)) e', receives before, after)
  bind_inversion abort r = elim r [ ]

  pub Runs-bind :
      {A B : Type 0} {p : Proc M A} (k : A → Proc M B) {first second : List (Event M)} {a : A}
      {b : B}
      → Runs M A p first a
      → Runs M B (k a) second b
      → Runs M B (p >>= k) (first ++ second) b
  Runs-bind k done after = after
  Runs-bind k (sends r) after = sends (Runs-bind k r after)
  Runs-bind k (receives r) after = receives (Runs-bind k r after)

  pub bind_assoc :
      {A B C : Type 0} (p : Proc M A) (k : A → Proc M B) (l : B → Proc M C)
      → ((p >>= k) >>= l) ≡ (p >>= λ a. k a >>= l)
  bind_assoc (ret a) k l = refl
  bind_assoc (send j m p) k l = ap (send j m) (bind_assoc p k l)
  bind_assoc (receive j f) k l = ap (receive j) (fun_ext (λ m. bind_assoc (f m) k l))
  bind_assoc abort k l = refl

  pub sent_to-append :
      (j : ℕ) (xs ys : List (Event M)) → sent_to j (xs ++ ys) ≡ sent_to j xs ++ sent_to j ys
  sent_to-append j [] ys = refl
  sent_to-append j (out k m ∷ xs) ys = elim (Bool-cases (k == j)) [
    | inl same ↦ rw same (ap (◌∷◌ m) (sent_to-append j xs ys))
    | inr other ↦ rw other (sent_to-append j xs ys)
  ]
  sent_to-append j (inc k m ∷ xs) ys = sent_to-append j xs ys

  pub received_from-append :
      (j : ℕ) (xs ys : List (Event M))
      → received_from j (xs ++ ys) ≡ received_from j xs ++ received_from j ys
  received_from-append j [] ys = refl
  received_from-append j (out k m ∷ xs) ys = received_from-append j xs ys
  received_from-append j (inc k m ∷ xs) ys = elim (Bool-cases (k == j)) [
    | inl same ↦ rw same (ap (◌∷◌ m) (received_from-append j xs ys))
    | inr other ↦ rw other (received_from-append j xs ys)
  ]

  -- What `send_each` does.
  abbrev pub each : ℕ → ℕ → ℕ → M → List (Event M)
  each me j zero o = []
  each me j (suc n) o = let rest = each me (suc j) n o in if j == me then rest else out j o ∷ rest

  pub each-Runs : (me j n : ℕ) (o : M) → Runs M (Unit {0}) (send_each me j n o) (each me j n o) tt
  unfolding send_each
  each-Runs me j zero o = done
  each-Runs me j (suc n) o = elim (Bool-cases (j == me)) [
    | inl own ↦ rw own (each-Runs me (suc j) n o)
    | inr other ↦ rw other (sends (each-Runs me (suc j) n o))
  ]

  send_each_own :
      (me j n : ℕ) (o : M) → (j == me) ≡ true → send_each me j (suc n) o ≡ send_each me (suc j) n o
  unfolding send_each
  send_each_own me j n o e = rw e

  send_each_other :
      (me j n : ℕ) (o : M)
      → (j == me) ≡ false
      → send_each me j (suc n) o ≡ send j o (send_each me (suc j) n o)
  unfolding send_each
  send_each_other me j n o e = rw e

  pub each_inversion :
      (me j n : ℕ) (o : M) {trace : List (Event M)} {u : Unit {0}}
      → Runs M (Unit {0}) (send_each me j n o) trace u
      → trace ≡ each me j n o
  unfolding send_each
  each_inversion me j zero o r = (ret_inversion r).0
  each_inversion me j (suc n) o r = elim (Bool-cases (j == me)) [
    | inl own ↦ rw own (each_inversion me (suc j) n o (run_as (send_each_own me j n o own) r))
    | inr other ↦
        let (rest, e, r') = send_inversion (run_as (send_each_other me j n o other) r) in
        rw other (e ∙ ap (◌∷◌ (out j o)) (each_inversion me (suc j) n o r'))
  ]

  pub received_from-each : (me j n k : ℕ) (o : M) → received_from k (each me j n o) ≡ []
  received_from-each me j zero k o = refl
  received_from-each me j (suc n) k o = elim (Bool-cases (j == me)) [
    | inl own ↦ rw own (received_from-each me (suc j) n k o)
    | inr other ↦ rw other (received_from-each me (suc j) n k o)
  ]

  pub sent_to-each_before : (me j n k : ℕ) (o : M) → k < j → sent_to k (each me j n o) ≡ []
  sent_to-each_before me j zero k o h = refl
  sent_to-each_before me j (suc n) k o h = elim (Bool-cases (j == me)) [
    | inl own ↦ rw own (sent_to-each_before me (suc j) n k o (omega arith))
    | inr other ↦
        rw (other, ==_ne j k (omega arith)) (sent_to-each_before me (suc j) n k o (omega arith))
  ]

  -- Each of the other parties is sent the message once.
  pub sent_to-each :
      (me j n k : ℕ) (o : M) → j ≤ k → k < j + n → k ≢ me → sent_to k (each me j n o) ≡ o ∷ []
  sent_to-each me j zero k o hj hk ne = absurd (omega arith)
  sent_to-each me j (suc n) k o hj hk ne = elim (ℕ_discrete j k) [
    | yes e ↦
        rw (==_ne j me (λ e'. ne (sym e ∙ e')), (==_iff j k).1 e)
          (ap (◌∷◌ o) (sent_to-each_before me (suc j) n k o (omega arith)))
    | no far ↦ elim (Bool-cases (j == me)) [
      | inl own ↦ rw own (sent_to-each me (suc j) n k o (omega arith) (omega arith) ne)
      | inr other ↦
          rw (other, ==_ne j k far) (sent_to-each me (suc j) n k o (omega arith) (omega arith) ne)
    ]
  ]

  pub sent_to-each_own : (me j n : ℕ) (o : M) → sent_to me (each me j n o) ≡ []
  sent_to-each_own me j zero o = refl
  sent_to-each_own me j (suc n) o = elim (Bool-cases (j == me)) [
    | inl own ↦ rw own (sent_to-each_own me (suc j) n o)
    | inr other ↦ rw (other, other) (sent_to-each_own me (suc j) n o)
  ]

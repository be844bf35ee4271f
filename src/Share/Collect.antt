-- ===== src/Share/Collect.antt =====
-- What the party that reconstructs receives, and the secret that it computes.
use native.Mathlib.Nat.{mod-eq_of_lt}
use mathlib.Core.List.{append-nil}
use linux_copy.Common.{
  ℕ, zero, suc, ◌+◌, ◌*◌, ◌<◌, ◌≤◌, ◌≡◌, refl, ap, ap₂, ◌∙◌, sym, subst, arith, ◌==◌, ==_ne, ==_iff,
  ==_refl, true, false, List, [], ◌∷◌, ◌++◌, length, tabulate, get_or, Bool-cases, le→leb, lt→ltb,
  inl, inr, set, some, drop, get_or-tabulate, ◌⊎◌,
}
use linux_copy.Gfp.{GfpScalar, gfp, ◌⊗◌}
use linux_copy.Poly.Sum.{dot, sum_congr}
use linux_copy.Poly.Eval.{IsPoly}
use linux_copy.Stream.{OctetStream, pack}
use linux_copy.Stream.Scalars.{get_length-pack, consume-pack, get_length-empty}
use linux_copy.Matrix.Pack.{unpack_row, unpack_row_loop}
use linux_copy.Network.{ret, receive, ◌>>=◌}
use linux_copy.Network.Run.{Event, inc, Runs, done, receives, sent_to, received_from}
use linux_copy.Network.Inversion.{
  ret_inversion, receive_inversion, bind_inversion, Runs-bind, run_as,
}
use linux_copy.ShareBase.{ShareBase, is_in_reconstruction_set, get_reconstruction_vector}
use linux_copy.ShareBase.Reconstruct.{IsValid, get_reconstruction_vector-eval, point_at}
use linux_copy.Share.{
  collect, calculate_secret, collected_sharing, reconstruction_vector, selected_degree,
  with_own_share,
}

-- The messages that `collect` receives.
abbrev pub receipts : {M : Type 0} → ℕ → List M → List (Event M)
receipts player_no [] = []
receipts player_no (o ∷ os) = inc player_no o ∷ receipts (suc player_no) os

module _ {M : Type 0} where
  pub sent_to-receipts : (j p : ℕ) (os : List M) → sent_to j (receipts p os) ≡ []
  sent_to-receipts j p [] = refl
  sent_to-receipts j p (o ∷ os) = sent_to-receipts j (suc p) os

  pub received_from-receipts_before :
      (j p : ℕ) (os : List M) → j < p → received_from j (receipts p os) ≡ []
  received_from-receipts_before j p [] h = refl
  received_from-receipts_before j p (o ∷ os) h =
      rw (==_ne p j (omega arith)) (received_from-receipts_before j (suc p) os (omega arith))

  pub received_from-receipts_after :
      (j p : ℕ) (os : List M) → p + length os ≤ j → received_from j (receipts p os) ≡ []
  received_from-receipts_after j p [] h = refl
  received_from-receipts_after j p (o ∷ os) h =
      rw (==_ne p j (omega arith)) (received_from-receipts_after j (suc p) os (omega arith))

  pub received_from-receipts :
      (k p : ℕ) (os : List M) (d : M)
      → k < length os
      → received_from (p + k) (receipts p os) ≡ get_or os k d ∷ []
  received_from-receipts k p [] d h = absurd (omega arith)
  received_from-receipts zero p (o ∷ os) d h =
      rw ((==_iff p (p + 0)).1 (omega arith))
        (ap (◌∷◌ o) (received_from-receipts_before (p + 0) (suc p) os (omega arith)))
  received_from-receipts (suc k) p (o ∷ os) d h = rw (==_ne p (p + suc k) (omega arith)) (
      ap (λ (j : ℕ). received_from j (receipts (suc p) os)) {x = p + suc k} {y = suc p + k}
        (omega arith)
      ∙ received_from-receipts k (suc p) os d (omega arith))

module _ (s : OctetStream) (c : ShareBase) where
  open s use {Octets, empty, contents}

  collect_other :
      (rounds p : ℕ)
      → (c.my_num == p) ≡ false
      → collect s c (suc rounds) p
        ≡ receive p (λ o. collect s c rounds (suc p) >>= λ os. ret (o ∷ os))
  unfolding collect
  collect_other rounds p e = rw e

  -- Above its own number, a party receives from each.
  pub collect_inversion :
      (rounds p : ℕ) {trace : List (Event Octets)} {os : List Octets}
      → c.my_num < p
      → Runs Octets (List Octets) (collect s c rounds p) trace os
      → (trace ≡ receipts p os) × (length os ≡ rounds)
  unfolding collect
  collect_inversion zero p {os = os} h r =
      let (e, e') = ret_inversion r in (e ∙ ap (receipts p) e', ap length (sym e'))
  collect_inversion (suc rounds) p {trace = trace} {os = os} h r =
      let (o, rest, e, r') =
        receive_inversion (run_as (collect_other rounds p (==_ne c.my_num p (omega arith))) r) in
      let (first, second, others, e', before, after) =
        bind_inversion (collect s c rounds (suc p)) r' in
      let (e₂, len) = collect_inversion rounds (suc p) (omega arith) before in
      let (e₃, e₄) = ret_inversion after in
      (
        e
            ∙ ap (◌∷◌ (inc p o)) (e' ∙ ap₂ ◌++◌ e₂ e₃ ∙ append-nil (receipts (suc p) others))
            ∙ ap (receipts p) e₄,
        ap length (sym e₄) ∙ ap suc len,
      )

  pub collect_own :
      (rounds : ℕ)
      → c.my_num ≡ 0
      → collect s c (rounds + 1) 0 ≡ (collect s c rounds 1 >>= λ os. ret (empty ∷ os))
  unfolding collect
  collect_own rounds e =
      ap (λ n. collect s c n 0) {x = rounds + 1} {y = suc rounds} (omega arith)
      ∙ first_round ((==_iff c.my_num 0).1 e)
    where
      first_round :
          (c.my_num == 0) ≡ true
          → collect s c (suc rounds) 0 ≡ (collect s c rounds 1 >>= λ os. ret (empty ∷ os))
      first_round e = rw (collect, e)

  pub collect-Runs :
      (p : ℕ) (os : List Octets)
      → c.my_num < p
      → Runs Octets (List Octets) (collect s c (length os) p) (receipts p os) os
  unfolding collect
  collect-Runs p [] h = done
  collect-Runs p (o ∷ os) h =
      run_as (sym (collect_other (length os) p (==_ne c.my_num p (omega arith)))) (
        receives (
          subst
            (λ t.
              Runs Octets (List Octets) (collect s c (length os) (suc p) >>= λ os. ret (o ∷ os)) t
                (o ∷ os))
            (append-nil (receipts (suc p) os))
            (Runs-bind (λ os. ret (o ∷ os)) (collect-Runs (suc p) os (omega arith)) done)))

-- For the degrees in use, the vector is the one of the degree.
pub selected :
    (s : OctetStream) (c : ShareBase) (degree : ℕ)
    → (degree ≡ c.threshold) ⊎ (degree ≡ c.threshold * 2)
    → selected_degree s c degree ≡ degree
unfolding selected_degree
selected s c degree (inl e) = rw ((==_iff degree c.threshold).1 e) (sym e)
selected s c degree (inr e) = elim (Bool-cases (degree == c.threshold)) [
  | inl same ↦ rw same (sym ((==_iff degree c.threshold).0 same))
  | inr other ↦ rw other (sym e)
]

module _ (s : OctetStream) where
  open s use {Octets, empty}

  shares_unpacked :
      (os : List Octets) (ptr : List GfpScalar) (h : ℕ → GfpScalar)
      → ((k : ℕ) → k < length os → get_or os k empty ≡ pack s (h k))
      → unpack_row_loop s 1 ptr os ≡ tabulate (length os) h
  unfolding unpack_row_loop
  shares_unpacked [] ptr h e = refl
  shares_unpacked (o ∷ os) ptr h e =
      ap₂ ◌++◌ {y = h 0 ∷ []}
        (rw (e 0 (omega arith), get_length-pack s (h 0)) (consume-pack s (h 0)))
        (shares_unpacked os (drop 1 ptr) (λ k. h (suc k)) (λ k hk. e (suc k) (omega arith)))

  king_row :
      (fresh : ℕ → GfpScalar) (os : List Octets) (shares : ℕ → GfpScalar)
      → ((k : ℕ) → k < length os → get_or os k empty ≡ pack s (shares (suc k)))
      → set (unpack_row_loop s 1 (tabulate (suc (length os)) fresh) (empty ∷ os)) 0 (shares 0)
        ≡ tabulate (suc (length os)) shares
  unfolding unpack_row_loop
  king_row fresh os shares e =
      rw (get_length-empty s) (ap (◌∷◌ (shares 0)) (shares_unpacked os _ (λ k. shares (suc k)) e))

  module _ (c : ShareBase) (own : c.my_num ≡ 0) (near : c.get_relative c.my_num c.pking ≡ 0) where
    own_share_written :
        (degree : ℕ) (share : GfpScalar) (sharing : List GfpScalar)
        → with_own_share s c degree share sharing ≡ some (set sharing 0 share)
    unfolding with_own_share is_in_reconstruction_set
    own_share_written degree share sharing =
        rw (near, le→leb 0 degree (omega arith), own, lt→ltb 0 (degree + 1) (omega arith))

    pub collected_sharing-tabulate :
        (degree : ℕ) (fresh : ℕ → GfpScalar) (os : List Octets) (shares : ℕ → GfpScalar)
        → length os ≡ degree
        → ((k : ℕ) → k < degree → get_or os k empty ≡ pack s (shares (suc k)))
        → collected_sharing s c degree (shares 0) fresh (empty ∷ os)
          ≡ some (tabulate (suc degree) shares)
    unfolding collected_sharing unpack_row
    collected_sharing-tabulate degree fresh os shares len e =
        rw
          (
            collected_sharing,
            unpack_row,
            (==_iff (degree + 1) (suc (length os))).1 (omega (arith, len)),
          )
          (own_share_written degree (shares 0) _
            ∙ ap
                (λ n. some (set (unpack_row_loop s 1 (tabulate n fresh) (empty ∷ os)) 0 (shares 0)))
                {x = degree + 1} {y = suc (length os)} (omega (arith, len))
            ∙ ap some (king_row fresh os shares (λ k hk. e k (omega (arith, len))))
            ∙ ap (λ n. some (tabulate (suc n) shares)) len)

    -- The secret that is computed.
    pub calculate_secret-ret :
        (degree : ℕ) (fresh : ℕ → GfpScalar) (os : List Octets) (g : GfpScalar → GfpScalar)
        → IsValid c
        → c.pking ≡ 0
        → degree < c.n_players
        → (degree ≡ c.threshold) ⊎ (degree ≡ c.threshold * 2)
        → IsPoly (suc degree) g
        → length os ≡ degree
        → ((k : ℕ) → k < degree → get_or os k empty ≡ pack s (g (gfp (suc k + 1))))
        → calculate_secret s c degree (g (gfp 1)) fresh (empty ∷ os) ≡ ret (g (gfp 0))
    unfolding calculate_secret reconstruction_vector
    calculate_secret-ret degree fresh os g v first hd ht hg len e =
        rw
          (
            collected_sharing-tabulate degree fresh os (λ k. g (gfp (k + 1))) len e,
            selected s c degree ht,
            ==_refl degree,
          )
          (ap ret (
            ap
              (λ n.
                dot n (get_reconstruction_vector c (gfp 0) degree)
                  (λ i. get_or (tabulate (suc degree) (λ k. g (gfp (k + 1)))) i (gfp 0)))
              {x = degree + 1} {y = suc degree} (omega arith)
            ∙ values
            ∙ get_reconstruction_vector-eval c v g degree (gfp 0) hd hg))
      where
        values :
            dot
              (suc degree)
              (get_reconstruction_vector c (gfp 0) degree)
              (λ i. get_or (tabulate (suc degree) (λ k. g (gfp (k + 1)))) i (gfp 0))
            ≡ dot (suc degree) (get_reconstruction_vector c (gfp 0) degree) (λ i. g (point_at c i))
        values =
            unfold dot in
            sum_congr (suc degree) _ _ (λ i hi.
              ap (λ (x : GfpScalar). get_reconstruction_vector c (gfp 0) degree i ⊗ x)
                (get_or-tabulate (suc degree) (λ k. g (gfp (k + 1))) i (gfp 0) hi
                  ∙ ap (λ (n : ℕ). g (gfp (n + 1))) {x = i}
                      {y = c.positive_modulo (c.pking + i) c.n_players}
                      (omega (
                        arith,
                        first,
                        v.modulo (c.pking + i),
                        mod-eq_of_lt {n = c.pking + i} {m = c.n_players} (omega (arith, first)),
                      ))))

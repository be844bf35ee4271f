-- ===== src/ShareBundle/Block/Collect.antt =====
-- The two loops of `ShareBundle::reveal_blocks_dispersed`: what a party sends and receives.
use linux_copy.Common.{
  ℕ, zero, suc, ◌+◌, ◌<◌, ◌≤◌, ◌≡◌, refl, ap, ap₂, ◌∙◌, arith, ◌==◌, ==_ne, ==_iff, List, ◌∷◌,
  tabulate, Bool-cases, inl, inr, set, some, ◌⊎◌, fun_ext, ℕ_discrete,
}
use linux_copy.Stream.{OctetStream}
use linux_copy.Matrix.Pack.{pack_rows}
use linux_copy.Matrix.Table.{tabulate_congr}
use linux_copy.Network.{Proc, ret, ◌>>=◌, send_from}
use linux_copy.Network.Run.{Runs, done, receives}
use linux_copy.Network.Inversion.{bind_assoc}
use linux_copy.Network.Joint.{Runs-then}
use linux_copy.Network.Arrivals.{arrivals, arrived}
use linux_copy.ShareBase.{ShareBase}
use linux_copy.ShareBundle.{ShareBundle, shaped}
use linux_copy.ShareBundle.Block.{
  request_reveals, reveal_block_from_party_request, finish_reveals, finish_reveal_block_from_party,
}

module _ {M : Type 0} where
  pub arrived_outside :
      (me p n : ℕ) (f : ℕ → M) (own : M)
      → (me < p) ⊎ (p + n ≤ me)
      → arrived me p n f own ≡ tabulate n (λ k. f (p + k))
  arrived_outside me p zero f own h = refl
  arrived_outside me p (suc n) f own h =
      ap₂ ◌∷◌ (rw (==_ne me p (omega arith)) (ap f (omega arith))) (
        arrived_outside me (suc p) n f own (later h)
        ∙ tabulate_congr n _ _ (λ k hk. ap f {x = suc p + k} {y = p + suc k} (omega arith)))
    where
      later : (me < p) ⊎ (p + suc n ≤ me) → (me < suc p) ⊎ (suc p + n ≤ me)
      later (inl below) = inl (omega arith)
      later (inr above) = inr (omega arith)

  pub from_zero : (n : ℕ) (f : ℕ → M) → tabulate n (λ k. f (0 + k)) ≡ tabulate n f
  from_zero n f = tabulate_congr n _ _ (λ k hk. ap f (omega arith))

  -- With the party's own stream written, there is one of each party.
  pub set-arrived :
      (q p n : ℕ) (f : ℕ → M) (own : M)
      → q < n
      → set (arrived (p + q) p n f own) q (f (p + q)) ≡ tabulate n (λ k. f (p + k))
  set-arrived q p zero f own h = absurd (omega arith)
  set-arrived zero p (suc n) f own h = ap (◌∷◌ (f (p + 0))) (
      arrived_outside (p + 0) (suc p) n f own (inl (omega arith))
      ∙ tabulate_congr n _ _ (λ k hk. ap f {x = suc p + k} {y = p + suc k} (omega arith)))
  set-arrived (suc q) p (suc n) f own h =
      ap₂ ◌∷◌ (rw (==_ne (p + suc q) p (omega arith)) (ap f (omega arith))) (
        ap (λ m. set (arrived m (suc p) n f own) q (f m)) {x = p + suc q} {y = suc p + q}
          (omega arith)
        ∙ set-arrived q (suc p) n f own (omega arith)
        ∙ tabulate_congr n _ _ (λ k hk. ap f {x = suc p + k} {y = p + suc k} (omega arith)))

module _ (s : OctetStream) (c : ShareBase) where
  open s use {Octets, empty}

  pub request_outside :
      (self : ShareBundle) (rounds p : ℕ) (os : List Octets)
      → (c.my_num < p) ⊎ (p + rounds ≤ c.my_num)
      → request_reveals s c self rounds p os ≡ ret os
  unfolding request_reveals reveal_block_from_party_request
  request_outside self zero p os h = refl
  request_outside self (suc rounds) p os h =
      rw (==_ne c.my_num p (omega arith)) (request_outside self rounds (suc p) os (later h))
    where
      later :
          (c.my_num < p) ⊎ (p + suc rounds ≤ c.my_num)
          → (c.my_num < suc p) ⊎ (suc p + rounds ≤ c.my_num)
      later (inl below) = inl (omega arith)
      later (inr above) = inr (omega arith)

  -- The party sends its blocks in the round of its number.
  pub request_inside :
      (self : ShareBundle) (rounds p : ℕ) (os packed : List Octets)
      → p ≤ c.my_num
      → c.my_num < p + rounds
      → pack_rows s (shaped self self.shares) os ≡ some packed
      → request_reveals s c self rounds p os ≡ (send_from c.my_num 0 packed >>= λ _. ret packed)
  unfolding request_reveals reveal_block_from_party_request
  request_inside self zero p os packed low high e = absurd (omega arith)
  request_inside self (suc rounds) p os packed low high e = elim (ℕ_discrete c.my_num p) [
    | yes here ↦
        rw ((==_iff c.my_num p).1 here, e)
          (bind_assoc (send_from c.my_num 0 packed) _ _
            ∙ ap (λ (k : Unit {0} → Proc Octets (List Octets)). send_from c.my_num 0 packed >>= k)
                (fun_ext (λ u. request_outside self rounds (suc p) packed (inl (omega arith)))))
    | no there ↦
        rw (==_ne c.my_num p there)
          (request_inside self rounds (suc p) os packed (omega arith) (omega arith) e)
  ]

  pub finish-Runs :
      (rounds p : ℕ) (f : ℕ → Octets)
      → Runs Octets
          (List Octets)
          (finish_reveals s c rounds p)
          (arrivals c.my_num p rounds f)
          (arrived c.my_num p rounds f empty)
  unfolding finish_reveals finish_reveal_block_from_party
  finish-Runs zero p f = done
  finish-Runs (suc rounds) p f = elim (Bool-cases (c.my_num == p)) [
    | inl own ↦
        rw (finish_reveals, own)
          (Runs-then (λ os. ret (empty ∷ os)) refl (finish-Runs rounds (suc p) f))
    | inr other ↦
        rw (finish_reveals, other)
          (receives (Runs-then (λ os. ret (f p ∷ os)) refl (finish-Runs rounds (suc p) f)))
  ]

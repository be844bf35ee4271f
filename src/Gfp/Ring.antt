-- ===== src/Gfp/Ring.antt =====
-- The operators of `gfpScalar` make its values the ring of integers modulo the prime. `gfp` is a
-- homomorphism from the natural numbers onto it, so that an identity without subtraction follows
-- from the one for natural numbers.
use native.Mathlib.Nat.{mod-mod, mod-eq_of_lt}
use linux_copy.Common.{ℕ, ◌+◌, ◌*◌, ◌%◌, ◌≡◌, ap, ◌∙◌, sym, arith, subst}
use linux_copy.Common.Modular.{mul_congr}
use linux_copy.Scalar.{pr}
use linux_copy.Scalar.Arith.{add_mod-mod, mult_mod-mod, additive_inverse-sub}
use linux_copy.Gfp.{GfpScalar, ext, gfp, ◌⊕◌, ◌⊗◌, neg}

pub gfp-value : (x : GfpScalar) → gfp x.value ≡ x
unfolding gfp
gfp-value x = ext (mod-eq_of_lt x.reduced)

pub gfp-+ : (a b : ℕ) → gfp (a + b) ≡ gfp a ⊕ gfp b
unfolding gfp ◌⊕◌
gfp-+ a b = ext (omega (arith, add_mod-mod (a % pr) (b % pr) (omega arith) (omega arith)))

pub gfp-* : (a b : ℕ) → gfp (a * b) ≡ gfp a ⊗ gfp b
unfolding gfp ◌⊗◌
gfp-* a b = ext (
    mul_congr pr a (a % pr) b (b % pr) (sym (mod-mod a pr)) (sym (mod-mod b pr))
    ∙ sym (mult_mod-mod (a % pr) (b % pr) (omega arith) (omega arith)))

-- To prove a statement of scalars it is enough to prove it of the values of `gfp`.
module _ {ℓ} where
  pub by_value : (P : GfpScalar → Type ℓ) → ((a : ℕ) → P (gfp a)) → (x : GfpScalar) → P x
  by_value P h x = subst P (gfp-value x) (h x.value)

  pub by_values :
      (P : GfpScalar → GfpScalar → Type ℓ)
      → ((a b : ℕ) → P (gfp a) (gfp b))
      → (x y : GfpScalar) → P x y
  by_values P h x y = by_value (λ x. P x y) (λ a. by_value (P (gfp a)) (h a) y) x

  pub by_three_values :
      (P : GfpScalar → GfpScalar → GfpScalar → Type ℓ)
      → ((a b c : ℕ) → P (gfp a) (gfp b) (gfp c))
      → (x y z : GfpScalar) → P x y z
  by_three_values P h x y z =
      by_values (λ x y. P x y z) (λ a b. by_value (P (gfp a) (gfp b)) (h a b) z) x y

  pub by_four_values :
      (P : GfpScalar → GfpScalar → GfpScalar → GfpScalar → Type ℓ)
      → ((a b c d : ℕ) → P (gfp a) (gfp b) (gfp c) (gfp d))
      → (x y z w : GfpScalar) → P x y z w
  by_four_values P h x y z w =
      by_three_values (λ x y z. P x y z w)
        (λ a b c. by_value (P (gfp a) (gfp b) (gfp c)) (h a b c) w) x y z

pub ⊕_comm : (x y : GfpScalar) → x ⊕ y ≡ y ⊕ x
⊕_comm = by_values _ (λ a b. simp (← gfp-+) (ap gfp (omega arith)))

pub ⊕_assoc : (x y z : GfpScalar) → (x ⊕ y) ⊕ z ≡ x ⊕ (y ⊕ z)
⊕_assoc = by_three_values _ (λ a b c. simp (← gfp-+) (ap gfp (omega arith)))

pub zero-⊕ : (x : GfpScalar) → gfp 0 ⊕ x ≡ x
zero-⊕ = by_value _ (λ a. simp (← gfp-+) (ap gfp (omega arith)))

pub ⊕-zero : (x : GfpScalar) → x ⊕ gfp 0 ≡ x
⊕-zero = by_value _ (λ a. simp (← gfp-+) (ap gfp (omega arith)))

pub ⊗_comm : (x y : GfpScalar) → x ⊗ y ≡ y ⊗ x
⊗_comm = by_values _ (λ a b. simp (← gfp-*) (ap gfp (omega arith)))

pub ⊗_assoc : (x y z : GfpScalar) → (x ⊗ y) ⊗ z ≡ x ⊗ (y ⊗ z)
⊗_assoc = by_three_values _ (λ a b c. simp (← gfp-*) (ap gfp (omega arith)))

pub one-⊗ : (x : GfpScalar) → gfp 1 ⊗ x ≡ x
one-⊗ = by_value _ (λ a. simp (← gfp-*) (ap gfp (omega arith)))

pub ⊗-one : (x : GfpScalar) → x ⊗ gfp 1 ≡ x
⊗-one = by_value _ (λ a. simp (← gfp-*) (ap gfp (omega arith)))

pub zero-⊗ : (x : GfpScalar) → gfp 0 ⊗ x ≡ gfp 0
zero-⊗ = by_value _ (λ a. simp (← gfp-*) (ap gfp (omega arith)))

pub ⊗-zero : (x : GfpScalar) → x ⊗ gfp 0 ≡ gfp 0
⊗-zero = by_value _ (λ a. simp (← gfp-*) (ap gfp (omega arith)))

pub ⊗-⊕ : (x y z : GfpScalar) → x ⊗ (y ⊕ z) ≡ x ⊗ y ⊕ x ⊗ z
⊗-⊕ = by_three_values _ (λ a b c. simp (← gfp-+, ← gfp-*) (ap gfp (omega arith)))

pub ⊕-⊗ : (x y z : GfpScalar) → (x ⊕ y) ⊗ z ≡ x ⊗ z ⊕ y ⊗ z
⊕-⊗ = by_three_values _ (λ a b c. simp (← gfp-+, ← gfp-*) (ap gfp (omega arith)))

pub ⊕-neg : (x : GfpScalar) → x ⊕ neg x ≡ gfp 0
unfolding ◌⊕◌ neg gfp
⊕-neg x =
    let e = additive_inverse-sub x.value (omega (arith, x.reduced)) in
    ext (omega (arith, e, x.reduced, add_mod-mod x.value _ x.reduced (neg x).reduced))

-- ===== src/Gfp/Inverse.antt =====
-- Subtraction, inverse and division of `gfpScalar`: the laws of a field.
use native.Mathlib.Nat.{mod-eq_of_lt}
use native.Mathlib.Decide.{ℕ_discrete}
use linux_copy.Common.{ℕ, ◌<◌, ◌≡◌, ◌≢◌, refl, ap, ◌∙◌, sym, arith, ◌≡⟨◌⟩◌, ◌∎}
use linux_copy.Scalar.{pr}
use linux_copy.Scalar.Arith.{mult_mod-mod}
use linux_copy.Scalar.Inverse.{mul-multiplicative_inverse}
use linux_copy.Gfp.{GfpScalar, ext, gfp, ◌⊕◌, ◌⊖◌, ◌⊗◌, ◌⊘◌, neg, inverse}
use linux_copy.Gfp.Ring.{
  ⊕_comm, ⊕_assoc, zero-⊕, ⊕-zero, ⊗_comm, ⊗_assoc, one-⊗, ⊗-one, zero-⊗, ⊗-zero, ⊗-⊕, ⊕-⊗, ⊕-neg,
}

pub GfpScalar-discrete : Discrete GfpScalar
GfpScalar-discrete x y = elim (ℕ_discrete x.value y.value) [
  | yes e ↦ yes (ext e)
  | no ne ↦ no (λ e. ne (ap (λ (s : GfpScalar). s.value) e))
]

pub value-gfp : (n : ℕ) → n < pr → (gfp n).value ≡ n
unfolding gfp
value-gfp n h = mod-eq_of_lt h

-- Words below the prime are told apart by `gfp`.
pub gfp-injective : (m n : ℕ) → m < pr → n < pr → gfp m ≡ gfp n → m ≡ n
gfp-injective m n hm hn e =
    sym (value-gfp m hm) ∙ ap (λ (s : GfpScalar). s.value) e ∙ value-gfp n hn

value-pos : (x : GfpScalar) → x ≢ gfp 0 → 0 < x.value
value-pos x ne = elim (ℕ_discrete x.value 0) [
  | yes e ↦ absurd (ne (ext (e ∙ sym (value-gfp 0 (omega arith)))))
  | no h ↦ omega arith
]

-- Every scalar but zero is inverted.
pub ⊗-inverse : (x : GfpScalar) → x ≢ gfp 0 → x ⊗ inverse x ≡ gfp 1
unfolding ◌⊗◌ inverse gfp
⊗-inverse x ne =
    let (small, one) = mul-multiplicative_inverse x.value (value-pos x ne) x.reduced in
    ext (mult_mod-mod x.value _ (omega (arith, x.reduced)) small ∙ one)

pub sub_def : (x y : GfpScalar) → x ⊖ y ≡ x ⊕ neg y
unfolding ◌⊖◌
sub_def x y = refl

pub div_def : (x y : GfpScalar) → x ⊘ y ≡ x ⊗ inverse y
unfolding ◌⊘◌
div_def x y = refl

pub sub-add_cancel : (x y : GfpScalar) → (x ⊖ y) ⊕ y ≡ x
sub-add_cancel x y = simp (sub_def, ⊕_assoc, ⊕_comm (neg y) y, ⊕-neg, ⊕-zero)

-- Cancellation: to find a difference, add what is subtracted.
pub ⊕_right_cancel : (x y z : GfpScalar) → x ⊕ z ≡ y ⊕ z → x ≡ y
⊕_right_cancel x y z e =
    x
    ≡⟨ (simp (⊕_assoc, ⊕-neg, ⊕-zero)) ⟩ (x ⊕ z) ⊕ neg z
    ≡⟨ ap (λ (s : GfpScalar). s ⊕ neg z) e ⟩ (y ⊕ z) ⊕ neg z
    ≡⟨ (simp (⊕_assoc, ⊕-neg, ⊕-zero)) ⟩ y ∎

pub sub_self : (x : GfpScalar) → x ⊖ x ≡ gfp 0
sub_self x = sub_def x x ∙ ⊕-neg x

pub sub_of_add : (x y z : GfpScalar) → x ≡ z ⊕ y → x ⊖ y ≡ z
sub_of_add x y z e = ⊕_right_cancel (x ⊖ y) z y (sub-add_cancel x y ∙ e)

pub add_of_sub : (x y z : GfpScalar) → x ⊖ y ≡ z → x ≡ z ⊕ y
add_of_sub x y z e = sym (sub-add_cancel x y) ∙ ap (λ (s : GfpScalar). s ⊕ y) e

pub eq_of_sub-eq-zero : (x y : GfpScalar) → x ⊖ y ≡ gfp 0 → x ≡ y
eq_of_sub-eq-zero x y e = add_of_sub x y (gfp 0) e ∙ zero-⊕ y

pub sub-ne-zero : (x y : GfpScalar) → x ≢ y → x ⊖ y ≢ gfp 0
sub-ne-zero x y ne e = ne (eq_of_sub-eq-zero x y e)

pub ⊗-⊖ : (x y z : GfpScalar) → x ⊗ (y ⊖ z) ≡ x ⊗ y ⊖ x ⊗ z
⊗-⊖ x y z = sym (
    sub_of_add (x ⊗ y) (x ⊗ z) (x ⊗ (y ⊖ z))
      (ap (◌⊗◌ x) (sym (sub-add_cancel y z)) ∙ ⊗-⊕ x (y ⊖ z) z))

pub ⊖-⊗ : (x y z : GfpScalar) → (x ⊖ y) ⊗ z ≡ x ⊗ z ⊖ y ⊗ z
⊖-⊗ x y z = ⊗_comm (x ⊖ y) z ∙ ⊗-⊖ z x y ∙ simp (⊗_comm z x, ⊗_comm z y)

inverse-⊗ : (x : GfpScalar) → x ≢ gfp 0 → inverse x ⊗ x ≡ gfp 1
inverse-⊗ x ne = ⊗_comm (inverse x) x ∙ ⊗-inverse x ne

-- There are no zero divisors.
pub ⊗_left_cancel : (x y z : GfpScalar) → x ≢ gfp 0 → x ⊗ y ≡ x ⊗ z → y ≡ z
⊗_left_cancel x y z ne e =
    y
    ≡⟨ sym (one-⊗ y) ∙ (rw (← inverse-⊗ x ne) (⊗_assoc (inverse x) x y)) ⟩ inverse x ⊗ (x ⊗ y)
    ≡⟨ ap (◌⊗◌ (inverse x)) e ⟩ inverse x ⊗ (x ⊗ z)
    ≡⟨ sym (⊗_assoc (inverse x) x z) ∙ (rw (inverse-⊗ x ne) (one-⊗ z)) ⟩ z ∎

pub eq-zero_of_⊗ : (x y : GfpScalar) → x ≢ gfp 0 → x ⊗ y ≡ gfp 0 → y ≡ gfp 0
eq-zero_of_⊗ x y ne e = ⊗_left_cancel x y (gfp 0) ne (e ∙ sym (⊗-zero x))

pub ⊗-ne-zero : (x y : GfpScalar) → x ≢ gfp 0 → y ≢ gfp 0 → x ⊗ y ≢ gfp 0
⊗-ne-zero x y hx hy e = hy (eq-zero_of_⊗ x y hx e)

-- A quotient times its divisor is the dividend.
pub div-mul_cancel : (x y : GfpScalar) → y ≢ gfp 0 → (x ⊘ y) ⊗ y ≡ x
div-mul_cancel x y ne = simp (div_def, ⊗_assoc, inverse-⊗ y ne, ⊗-one)

pub div_self : (x : GfpScalar) → x ≢ gfp 0 → x ⊘ x ≡ gfp 1
div_self x ne = div_def x x ∙ ⊗-inverse x ne

pub neg_one : (x : GfpScalar) → neg x ≡ neg (gfp 1) ⊗ x
neg_one x =
    ⊕_right_cancel (neg x) (neg (gfp 1) ⊗ x) x
      (⊕_comm (neg x) x ∙ ⊕-neg x ∙ sym (product ∙ ap (λ (s : GfpScalar). s ⊗ x) one ∙ zero-⊗ x))
  where
    one : neg (gfp 1) ⊕ gfp 1 ≡ gfp 0
    one = ⊕_comm (neg (gfp 1)) (gfp 1) ∙ ⊕-neg (gfp 1)

    product : neg (gfp 1) ⊗ x ⊕ x ≡ (neg (gfp 1) ⊕ gfp 1) ⊗ x
    product = ap (◌⊕◌ (neg (gfp 1) ⊗ x)) (sym (one-⊗ x)) ∙ sym (⊕-⊗ (neg (gfp 1)) (gfp 1) x)

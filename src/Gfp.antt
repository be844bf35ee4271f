-- ===== src/Gfp.antt =====
-- Math/gfpScalar.h: `gfpScalar` values that are reduced, with the class's operators. Each operator
-- is the word operation of Scalar on the field `value`; the laws of the field are in the children.
pub mod Ring
pub mod Inverse
pub mod Power
pub mod Sqrt
use native.Mathlib.Nat.{mod-lt}
use native.Mathlib.Bridge.{le_prop}
use mathlib.Core.HLevel.{is_prop→PathP}
use linux_copy.Common.{
  ℕ, zero, suc, ◌+◌, ◌-◌, ◌*◌, ◌/◌, ◌%◌, ◌<◌, ◌≤◌, ◌≡◌, refl, ap, ◌∙◌, arith, Bool, ◌==◌,
  if◌then◌else◌,
}
use linux_copy.Scalar.{
  pr, add_mod, mult_mod, additive_inverse, multiplicative_inverse, sqrt_exp, mid_pr, bits_length,
  truncate, msb,
}
use linux_copy.Scalar.Arith.{add_mod-mod, mult_mod-mod, additive_inverse-sub}
use linux_copy.Scalar.Inverse.{mul-multiplicative_inverse}

pub record GfpScalar : Type 0 where
  pub value : ℕ
  pub reduced : value < pr

pub ext : {x y : GfpScalar} → x.value ≡ y.value → x ≡ y
ext {x} {y} p = λ i. record {
  value = p i;
  reduced = is_prop→PathP (λ j. p j < pr) (λ j. le_prop) x.reduced y.reduced i;
}

-- The constructor from a `TYPE`. The class stores the word as it is; it is modelled on words below
-- the prime, which the remainder keeps.
unfoldable pub gfp : ℕ → GfpScalar
gfp n = record { value = n % pr; reduced = mod-lt n (omega arith) }

pub add_mod-reduced : (a b : ℕ) → a < pr → b < pr → add_mod a b < pr
add_mod-reduced a b ha hb = omega (arith, add_mod-mod a b ha hb)

pub mult_mod-reduced : (a b : ℕ) → a < pr → b < pr → mult_mod a b < pr
mult_mod-reduced a b ha hb = omega (arith, mult_mod-mod a b (omega arith) hb)

pub additive_inverse-reduced : (a : ℕ) → a < pr → additive_inverse a < pr
additive_inverse-reduced a ha = omega (arith, additive_inverse-sub a (omega arith))

inverse_of_zero : multiplicative_inverse 0 ≡ 0
unfolding multiplicative_inverse
inverse_of_zero = refl

pub multiplicative_inverse-reduced : (a : ℕ) → a < pr → multiplicative_inverse a < pr
multiplicative_inverse-reduced zero ha = omega (arith, inverse_of_zero)
multiplicative_inverse-reduced (suc a) ha = (mul-multiplicative_inverse (suc a) (omega arith) ha).0

infixl 65 ◌⊕◌ ◌⊖◌
infixl 70 ◌⊗◌ ◌⊘◌
unfoldable pub ◌⊕◌ : GfpScalar → GfpScalar → GfpScalar
a ⊕ b = record {
  value = add_mod a.value b.value;
  reduced = add_mod-reduced a.value b.value a.reduced b.reduced;
}

unfoldable pub neg : GfpScalar → GfpScalar
neg a = record {
  value = additive_inverse a.value;
  reduced = additive_inverse-reduced a.value a.reduced;
}

unfoldable pub ◌⊖◌ : GfpScalar → GfpScalar → GfpScalar
unfolding ◌⊕◌ neg
a ⊖ b = a ⊕ neg b

unfoldable pub ◌⊗◌ : GfpScalar → GfpScalar → GfpScalar
a ⊗ b = record {
  value = mult_mod a.value b.value;
  reduced = mult_mod-reduced a.value b.value a.reduced b.reduced;
}

unfoldable pub inverse : GfpScalar → GfpScalar
inverse a = record {
  value = multiplicative_inverse a.value;
  reduced = multiplicative_inverse-reduced a.value a.reduced;
}

unfoldable pub ◌⊘◌ : GfpScalar → GfpScalar → GfpScalar
unfolding ◌⊗◌ inverse
a ⊘ b = a ⊗ inverse b

-- `operator==` and `is_zero`.
abbrev pub same : GfpScalar → GfpScalar → Bool
same a b = a.value == b.value

abbrev pub is_zero : GfpScalar → Bool
is_zero a = a.value == 0

unfoldable pub square : GfpScalar → GfpScalar
unfolding ◌⊗◌
square a = a ⊗ a

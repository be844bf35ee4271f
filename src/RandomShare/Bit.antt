-- ===== src/RandomShare/Bit.antt =====
-- `generate_random_bits` of Protocols/RandomShare.cpp: the bit that is made of a random value.
use linux_copy.Common.{◌≡◌, ◌≢◌, ◌⊎◌, inl, inr, ap, ap₂, ◌∙◌, sym, arith}
use linux_copy.Gfp.{GfpScalar, gfp, ◌⊕◌, ◌⊖◌, ◌⊗◌, ◌⊘◌, inverse}
use linux_copy.Gfp.Ring.{gfp-+, ⊗_comm, ⊗_assoc, ⊗-⊕, one-⊗, ⊗-one, ⊕_comm, zero-⊗}
use linux_copy.Gfp.Inverse.{
  GfpScalar-discrete, gfp-injective, ⊗-inverse, ⊗-ne-zero, ⊖-⊗, sub_self, sub-ne-zero, eq-zero_of_⊗,
  div_def, div_self,
}

-- `((r * r_prime) + 1) / 2`.
unfoldable pub random_bit : GfpScalar → GfpScalar → GfpScalar
random_bit r r_prime = (r ⊗ r_prime ⊕ gfp 1) ⊘ gfp 2

root-ne-zero : (r root : GfpScalar) → r ≢ gfp 0 → root ⊗ root ≡ r ⊗ r → root ≢ gfp 0
root-ne-zero r root ne same e = ⊗-ne-zero r r ne ne (sym same ∙ ap (λ x. x ⊗ root) e ∙ zero-⊗ root)

ratio-square :
    (r root : GfpScalar)
    → r ≢ gfp 0
    → root ⊗ root ≡ r ⊗ r
    → (r ⊗ inverse root) ⊗ (r ⊗ inverse root) ≡ gfp 1
ratio-square r root ne same =
    regroup r (inverse root)
    ∙ ap (λ x. x ⊗ (inverse root ⊗ inverse root)) (sym same)
    ∙ sym (regroup root (inverse root))
    ∙ ap₂ ◌⊗◌ one one
    ∙ one-⊗ (gfp 1)
  where
    one : root ⊗ inverse root ≡ gfp 1
    one = ⊗-inverse root (root-ne-zero r root ne same)

    regroup : (x y : GfpScalar) → (x ⊗ y) ⊗ (x ⊗ y) ≡ (x ⊗ x) ⊗ (y ⊗ y)
    regroup x y =
        ⊗_assoc x y (x ⊗ y)
        ∙ ap (◌⊗◌ x) (sym (⊗_assoc y x y) ∙ ap (λ z. z ⊗ y) (⊗_comm y x) ∙ ⊗_assoc x y y)
        ∙ sym (⊗_assoc x x (y ⊗ y))

-- The square roots of one.
square_roots_of_one : (u : GfpScalar) → u ⊗ u ≡ gfp 1 → (u ≡ gfp 1) ⊎ (u ⊕ gfp 1 ≡ gfp 0)
square_roots_of_one u e = elim (GfpScalar-discrete u (gfp 1)) [
  | yes same ↦ inl same
  | no ne ↦ inr (
      eq-zero_of_⊗ (u ⊖ gfp 1) (u ⊕ gfp 1) (sub-ne-zero u (gfp 1) ne) (
        ⊖-⊗ u (gfp 1) (u ⊕ gfp 1)
        ∙ ap₂ ◌⊖◌ (⊗-⊕ u u (gfp 1) ∙ ap₂ ◌⊕◌ e (⊗-one u) ∙ ⊕_comm (gfp 1) u) (one-⊗ (u ⊕ gfp 1))
        ∙ sub_self (u ⊕ gfp 1)))
]

two-ne-zero : gfp 2 ≢ gfp 0
two-ne-zero e = omega (arith, gfp-injective 2 0 (omega arith) (omega arith) e)

-- Of a value other than zero and any square root of its square, `generate_random_bits` makes a bit:
-- zero or one.
pub random_bit-zero_or_one :
    (r root : GfpScalar)
    → r ≢ gfp 0
    → root ⊗ root ≡ r ⊗ r
    → (random_bit r (inverse root) ≡ gfp 0) ⊎ (random_bit r (inverse root) ≡ gfp 1)
unfolding random_bit
random_bit-zero_or_one r root ne same =
    elim (square_roots_of_one (r ⊗ inverse root) (ratio-square r root ne same)) [
      | inl e ↦ inr (
          ap (λ x. (x ⊕ gfp 1) ⊘ gfp 2) e
          ∙ ap (λ x. x ⊘ gfp 2) (sym (gfp-+ 1 1))
          ∙ div_self (gfp 2) two-ne-zero)
      | inr e ↦ inl (ap (λ x. x ⊘ gfp 2) e ∙ div_def (gfp 0) (gfp 2) ∙ zero-⊗ (inverse (gfp 2)))
    ]

-- ===== src/Gfp/Sqrt.antt =====
-- Math/gfpScalar.h: the square root and its inverse.
use linux_copy.Common.{
  ℕ, zero, suc, ◌<◌, ◌≤◌, ◌≡◌, ◌≢◌, ap, ◌∙◌, sym, arith, ltb, leb, ◌&&◌, if◌then◌else◌, Option,
  none, some, inl, inr, ◌⊎◌, Bool-cases, lt→ltb, le→leb, le→ltb_false, dec_lt,
}
use linux_copy.Scalar.{mid_pr, sqrt_exp}
use linux_copy.Scalar.Arith.{additive_inverse-sub}
use linux_copy.Gfp.{GfpScalar, gfp, neg, inverse, is_zero, ext}
use linux_copy.Gfp.Power.{power, pow, pow-power}
use linux_copy.Gfp.Inverse.{⊗-ne-zero, gfp-injective, value-gfp}

-- The choice of the root in the lower half.
unfoldable pub lower_root : GfpScalar → GfpScalar
lower_root res = if leb 1 res.value && ltb res.value mid_pr then res else neg res

-- `none` is the failed assertion.
unfoldable pub sqrt : GfpScalar → Option GfpScalar
unfolding lower_root
sqrt x = if ltb 0 x.value then some (lower_root (pow x sqrt_exp)) else none

unfoldable pub rsqrt : GfpScalar → Option GfpScalar
unfolding sqrt
rsqrt x = if is_zero x then some x else elim (sqrt x) [ none ↦ none | some r ↦ some (inverse r) ]

power-ne-zero : (n : ℕ) (x : GfpScalar) → x ≢ gfp 0 → power x n ≢ gfp 0
unfolding power
power-ne-zero zero x ne =
    λ e. absurd (omega (arith, gfp-injective 1 0 (omega arith) (omega arith) e))
power-ne-zero (suc n) x ne = ⊗-ne-zero x (power x n) ne (power-ne-zero n x ne)

value-ne-zero : (x : GfpScalar) → x ≢ gfp 0 → 0 < x.value
value-ne-zero x ne = elim (dec_lt 0 x.value) [
  | yes h ↦ h
  | no h ↦ absurd (ne (ext (omega (arith, value-gfp 0 (omega arith)))))
]

lower_root-range :
    (res : GfpScalar)
    → 0 < res.value
    → (1 ≤ (lower_root res).value) × ((lower_root res).value < mid_pr)
unfolding lower_root neg
lower_root-range res pos = elim (dec_lt res.value mid_pr) [
  | yes low ↦ rw (le→leb 1 res.value pos, lt→ltb res.value mid_pr low) (pos, low)
  | no high ↦
      rw (le→leb 1 res.value pos, le→ltb_false res.value mid_pr (omega arith))
        (
          omega (arith, res.reduced, additive_inverse-sub res.value (omega (arith, res.reduced))),
          omega (arith, res.reduced, additive_inverse-sub res.value (omega (arith, res.reduced))),
        )
]

lower_root_choice : (res : GfpScalar) → (lower_root res ≡ res) ⊎ (lower_root res ≡ neg res)
unfolding lower_root
lower_root_choice res = elim (Bool-cases (leb 1 res.value && ltb res.value mid_pr)) [
  | inl low ↦ inl (rw low)
  | inr high ↦ inr (rw high)
]

sqrt-some : (x : GfpScalar) → 0 < x.value → sqrt x ≡ some (lower_root (pow x sqrt_exp))
unfolding sqrt
sqrt-some x pos = rw (lt→ltb 0 x.value pos)

-- The square root of a value other than zero is in the lower half of the field, from 1 to
-- `(p - 1) / 2`, and is up to its sign the power of `SQRT_EXP`.
pub sqrt-range :
    (x : GfpScalar)
    → x ≢ gfp 0
    → (r : GfpScalar) × (sqrt x ≡ some r)
      × (1 ≤ r.value)
      × (r.value < mid_pr)
      × ((r ≡ power x sqrt_exp) ⊎ (r ≡ neg (power x sqrt_exp)))
sqrt-range x ne =
    let pos =
      value-ne-zero (pow x sqrt_exp)
        (λ e. power-ne-zero sqrt_exp x ne (sym (pow-power x sqrt_exp) ∙ e)) in
    let (low, high) = lower_root-range (pow x sqrt_exp) pos in
    (
      lower_root (pow x sqrt_exp),
      sqrt-some x (value-ne-zero x ne),
      low,
      high,
      elim (lower_root_choice (pow x sqrt_exp)) [
        | inl e ↦ inl (e ∙ pow-power x sqrt_exp)
        | inr e ↦ inr (e ∙ ap neg (pow-power x sqrt_exp))
      ],
    )

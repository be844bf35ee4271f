-- ===== src/Scalar/Fixed.antt =====
-- The signed reading of a residue in Math/gfpScalar.h: `map_int_to_gfp`, `map_gfp_to_int`, and the
-- shifts of fixed-point numbers, `truncate` and `magnify`.
use linux_copy.Common.{ℕ, ◌-◌, ◌*◌, ◌^◌, ◌<◌, ◌≤◌, ◌≡◌, arith, ◌↔◌, dec_lt}
use linux_copy.Common.Int.{ℤ, pos, negsuc, nat_abs}
use linux_copy.Scalar.{
  pr, truncate, magnify, map_gfp_to_int, map_int_to_gfp, max_positive, msb, fixed_precision,
}
use linux_copy.Scalar.Arith.{additive_inverse-sub}

-- An integer whose magnitude is at most `MAX_POSITIVE` is encoded as a residue and decoded again.
pub map_gfp_to_int-map_int_to_gfp :
    (x : ℤ)
    → nat_abs x ≤ max_positive
    → (map_int_to_gfp x < pr) × (map_gfp_to_int (map_int_to_gfp x) ≡ x)
unfolding map_gfp_to_int map_int_to_gfp
map_gfp_to_int-map_int_to_gfp (pos n) h = ground arith
map_gfp_to_int-map_int_to_gfp (negsuc n) h = ground arith

-- A residue is decoded to an integer of that range and encoded again.
pub map_int_to_gfp-map_gfp_to_int :
    (v : ℕ)
    → v < pr
    → (nat_abs (map_gfp_to_int v) ≤ max_positive) × (map_int_to_gfp (map_gfp_to_int v) ≡ v)
unfolding map_gfp_to_int map_int_to_gfp
map_int_to_gfp-map_gfp_to_int v h = ground arith

magnitude_negative :
    (v bound : ℕ)
    → v < pr
    → max_positive < v
    → nat_abs (map_gfp_to_int v) * 4096 ≤ bound
    → (pr - v) * 4096 ≤ bound
unfolding map_gfp_to_int
magnitude_negative v bound h neg fits = ground arith

truncate-magnify_negative :
    (v : ℕ)
    → v < pr
    → max_positive < v
    → (pr - v) * 4096 ≤ max_positive
    → truncate (magnify v) 12 ≡ v
unfolding truncate magnify
truncate-magnify_negative v h neg fits = ground (
  arith,
  additive_inverse-sub v (omega arith),
  additive_inverse-sub ((pr - v) * 4096) (omega arith),
  additive_inverse-sub (pr - (pr - v) * 4096) (omega arith),
  additive_inverse-sub (pr - v) (omega arith),
)

-- `truncate` undoes `magnify`, the multiplication by `2 ^ FIXED_PRECISION`, on a residue whose
-- integer stays in range under it.
pub truncate-magnify :
    (v : ℕ)
    → v < pr
    → nat_abs (map_gfp_to_int v) * 2 ^ fixed_precision ≤ max_positive
    → truncate (magnify v) fixed_precision ≡ v
truncate-magnify v h fits = elim (dec_lt max_positive v) [
  | yes neg ↦ truncate-magnify_negative v h neg (magnitude_negative v max_positive h neg fits)
  | no small ↦ unfold truncate magnify map_gfp_to_int in ground arith
]

-- The sign bit is set exactly on the residues that stand for negative integers.
pub msb_iff : (v : ℕ) → v < pr → (msb v ≡ 1) ↔ ((n : ℕ) × (map_gfp_to_int v ≡ negsuc n))
unfolding map_gfp_to_int msb
msb_iff v h = (λ e. (pr - v - 1, ground arith), λ e. ground arith)

-- ===== src/Tests/Numbers.antt =====
-- The words, the field and the matrices.
use linux_copy.Common.{◌*◌, ◌%◌, ◌<◌, ◌≡◌, arith, List, [], ◌∷◌, length, All, some, replicate, refl}
use linux_copy.Common.Int.{negsuc}
use linux_copy.Scalar.{
  pr, mult_mod, multiplicative_inverse, map_gfp_to_int, map_int_to_gfp, truncate, magnify,
  fixed_precision, bits_length,
}
use linux_copy.Scalar.Arith.{mult_mod-mod}
use linux_copy.Scalar.Inverse.{mul-multiplicative_inverse}
use linux_copy.Scalar.Fixed.{map_gfp_to_int-map_int_to_gfp, truncate-magnify}
use linux_copy.Gfp.{GfpScalar, gfp}
use linux_copy.Gfp.Power.{pow, power, pow-power}
use linux_copy.Matrix.Bits.{
  decompose_bits, number, weighted, number-decompose_bits, weighted-decompose_bits,
}
use linux_copy.Matrix.Pack.{GfpMatrix, pack_rows, unpack_rows}
use linux_copy.Matrix.Pack.Roundtrip.{unpack_rows-pack_rows}
use linux_copy.Stream.{list_stream}

mult_mod-mod_example : mult_mod 2147483646 2147483645 ≡ 2147483646 * 2147483645 % pr
mult_mod-mod_example = mult_mod-mod 2147483646 2147483645 (omega arith) (omega arith)

mul-multiplicative_inverse_example :
    (multiplicative_inverse 6 < pr) × (6 * multiplicative_inverse 6 % pr ≡ 1)
mul-multiplicative_inverse_example = mul-multiplicative_inverse 6 (omega arith) (omega arith)

map_gfp_to_int-map_int_to_gfp_example :
    (map_int_to_gfp (negsuc 4) < pr) × (map_gfp_to_int (map_int_to_gfp (negsuc 4)) ≡ negsuc 4)
map_gfp_to_int-map_int_to_gfp_example = map_gfp_to_int-map_int_to_gfp (negsuc 4) (omega arith)

truncate-magnify_example : truncate (magnify 2147483640) fixed_precision ≡ 2147483640
truncate-magnify_example =
    truncate-magnify 2147483640 (omega arith) (unfold map_gfp_to_int in omega arith)

pow-power_example : pow (gfp 3) 5 ≡ power (gfp 3) 5
pow-power_example = pow-power (gfp 3) 5

number-decompose_bits_example :
    (length (decompose_bits 11 4) ≡ 4)
    × All (λ d. d < 2) (decompose_bits 11 4)
    × (number (decompose_bits 11 4) ≡ 11)
number-decompose_bits_example = number-decompose_bits 11 4 (omega arith)

weighted-decompose_bits_example : weighted 0 (decompose_bits 1000 bits_length) ≡ 1000
weighted-decompose_bits_example = weighted-decompose_bits 1000 (omega arith)

abbrev matrix : GfpMatrix
matrix = record { rows = 3; cols = 1; entries = gfp 4 ∷ gfp 5 ∷ gfp 6 ∷ [] }

unpack_rows-pack_rows_example :
    (os : List (List GfpScalar)) × (pack_rows list_stream matrix (replicate 2 []) ≡ some os)
    × (unpack_rows list_stream (record matrix { entries = [] }) os ≡ some matrix)
unpack_rows-pack_rows_example = unpack_rows-pack_rows list_stream matrix [] 1 refl

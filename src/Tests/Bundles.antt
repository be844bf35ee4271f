-- ===== src/Tests/Bundles.antt =====
-- The protocols of three parties on bundles.
use linux_copy.Common.{
  ℕ, zero, suc, ◌+◌, ◌*◌, ◌^◌, ◌<◌, ◌≤◌, ◌≡◌, refl, ap₂, ◌∙◌, sym, arith, inl, List, [],
}
use linux_copy.Scalar.{truncate}
use linux_copy.Gfp.{GfpScalar, ext, gfp, ◌⊗◌}
use linux_copy.Gfp.Ring.{gfp-*}
use linux_copy.Poly.Eval.{IsPoly}
use linux_copy.Stream.{list_stream}
use linux_copy.Network.Joint.{Joint}
use linux_copy.Share.Reveal.{party}
use linux_copy.ShareBundle.{ShareBundle}
use linux_copy.ShareBundle.Block.{partition_rows}
use linux_copy.ShareBundle.Block.Partition.{partition_rows-partition}
use linux_copy.ShareBundle.Block.Reveal.{IsSupported, bundle_of}
use linux_copy.ShareBundle.Prg.Blocks.{input_blocks_dispersed_prg}
use linux_copy.ShareBundle.Prg.Deal.{IsDealt}
use linux_copy.ShareBundle.Prg.Exists.{input_bundle}
use linux_copy.ShareBundle.Prg.Values.{input_blocks_dispersed_prg-Joint}
use linux_copy.ShareBundle.Reveal.{reveal_truncate}
use linux_copy.ShareBundle.Reveal.Exists.{reveal_truncate-truncated}
use linux_copy.ShareBundle.Mult.Exists.{IsQuotient}
use linux_copy.Tests.{three_parties, three_parties-IsValid}
use linux_copy.Tests.Protocols.{poly, poly-IsPoly, poly-zero, three_relative, mask}

three-IsSupported : IsSupported three_parties 1
three-IsSupported = record {
  valid = three_parties-IsValid;
  relative = three_relative;
  enough_players = omega arith;
  supported = inl refl;
}

pub three-IsDealt : IsDealt three_parties
three-IsDealt = record { base = three-IsSupported; players = refl }

abbrev pub nothing : ℕ → ℕ → GfpScalar
nothing i e = gfp 0

abbrev pub counted : ℕ → ℕ → ℕ → GfpScalar
counted i j e = gfp (i + j + e)

abbrev pub no_more : ℕ → List GfpScalar
no_more i = []

partition_rows-partition_example :
    ((b : ℕ) → b < 3 → (partition_rows 3 7 b).0 + (partition_rows 3 7 b).1 ≤ 7)
    × ((row : ℕ)
        → row < 7
        → (b : ℕ) × (b < 3)
          × ((partition_rows 3 7 b).0 ≤ row)
          × (row < (partition_rows 3 7 b).0 + (partition_rows 3 7 b).1)
          × ((a : ℕ)
              → (partition_rows 3 7 a).0 ≤ row
              → row < (partition_rows 3 7 a).0 + (partition_rows 3 7 a).1
              → a ≡ b))
partition_rows-partition_example = partition_rows-partition 3 7 (omega arith)

-- Shares of the numbers from 4096 on, in a matrix of two rows.
abbrev shared : ℕ → GfpScalar → GfpScalar
shared e p = poly 1 (4096 + e) (λ k. 5) p

reveal_truncate-truncated_example :
    (results : ℕ → ShareBundle) × Joint
      (List GfpScalar)
      ShareBundle
      3
      (λ i.
        reveal_truncate list_stream
          (party three_parties i)
          (bundle_of list_stream three_parties 2 1 1 shared three-IsSupported nothing counted i)
          (λ x. 12)
          (counted i))
      results
    × ((i x : ℕ) → x < 2 → (results i).secrets x ≡ gfp (truncate (shared x (gfp 0)).value 12))
reveal_truncate-truncated_example =
    reveal_truncate-truncated list_stream three_parties 2 1 1 shared three-IsSupported
      (λ x hx. poly-IsPoly 1 (4096 + x) (λ k. 5)) nothing counted (λ x. 12)

input_blocks_dispersed_prg-Joint_example :
    (results : ℕ → ShareBundle) × Joint
      (List GfpScalar)
      ShareBundle
      3
      (λ i.
        input_blocks_dispersed_prg list_stream
          (party three_parties i)
          (input_bundle list_stream three_parties 4 2 three-IsDealt
            (λ j e. gfp (j * 10 + e))
            counted
            nothing
            i
            (nothing i))
          counted)
      results
    × ((b e : ℕ)
        → b < 3
        → (partition_rows 3 4 b).0 * 2 ≤ e
        → e < ((partition_rows 3 4 b).0 + (partition_rows 3 4 b).1) * 2
        → (y : GfpScalar → GfpScalar) × IsPoly 2 y
          × (y (gfp 0) ≡ gfp (b * 10 + e))
          × ((i : ℕ) → i < 3 → (results i).shares e ≡ y (gfp (i + 1))))
input_blocks_dispersed_prg-Joint_example =
    input_blocks_dispersed_prg-Joint list_stream three_parties 4 2 three-IsDealt
      (λ j e. gfp (j * 10 + e)) counted nothing

-- The masks 2, 4, 8, … of a row, whose quotients are all the inverse of 2.
abbrev pub power_mask : ℕ → GfpScalar → GfpScalar
power_mask e p = poly 1 (2 ^ (e + 1)) (λ k. 7) p

abbrev pub half : ℕ → GfpScalar → GfpScalar
half e p = poly 1 1073741824 (λ k. 2) p

half-first : half 0 (gfp 0) ⊗ power_mask 0 (gfp 0) ≡ gfp 1
unfolding gfp
half-first =
    ap₂ ◌⊗◌ (poly-zero 1 1073741824 (λ k. 2)) (poly-zero 1 2 (λ k. 7))
    ∙ sym (gfp-* 1073741824 2)
    ∙ ext refl

half-next : half 1 (gfp 0) ⊗ power_mask 1 (gfp 0) ≡ power_mask 0 (gfp 0)
unfolding gfp
half-next =
    ap₂ ◌⊗◌ (poly-zero 1 1073741824 (λ k. 2)) (poly-zero 1 4 (λ k. 7))
    ∙ sym (gfp-* 1073741824 4)
    ∙ ext refl
    ∙ sym (poly-zero 1 2 (λ k. 7))

-- A row of two entries.
pub pair-IsQuotient :
    (x : ℕ → ℕ) → IsQuotient three_parties 1 2 (λ e p. poly 1 (x e) (λ k. 5) p) half power_mask
pair-IsQuotient x = record {
  factor = λ e he. poly-IsPoly 1 (x e) (λ k. 5);
  quotient = λ e he. poly-IsPoly 1 1073741824 (λ k. 2);
  mask = λ e he. poly-IsPoly 1 (2 ^ (e + 1)) (λ k. 7);
  first = first_row;
  next = next_column;
}
  where
    first_row :
        (row : ℕ)
        → row < 1
        → 0 < 2
        → half (row * 2 + 0) (gfp 0) ⊗ power_mask (row * 2 + 0) (gfp 0) ≡ gfp 1
    first_row zero hr hc = half-first
    first_row (suc row) hr hc = absurd (omega arith)

    next_column :
        (row j : ℕ)
        → row < 1
        → suc j < 2
        → half (row * 2 + suc j) (gfp 0) ⊗ power_mask (row * 2 + suc j) (gfp 0)
          ≡ power_mask (row * 2 + j) (gfp 0)
    next_column zero zero hr hj = half-next
    next_column zero (suc j) hr hj = absurd (omega arith)
    next_column (suc row) j hr hj = absurd (omega arith)

-- Two bits, both ones.
abbrev count_of_bits : ℕ → GfpScalar → GfpScalar
count_of_bits e p = poly 1 3 (λ k. 5) p

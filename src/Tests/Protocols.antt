-- ===== src/Tests/Protocols.antt =====
-- The protocols of three parties, and the queues.
use linux_copy.Common.{
  ℕ, suc, ◌+◌, ◌*◌, ◌%◌, ◌<◌, ◌≤◌, ◌≡◌, ◌≢◌, refl, ap, ◌∙◌, sym, arith, inl, List, [], ◌∷◌, length,
  some,
}
use linux_copy.Gfp.{GfpScalar, gfp, ◌⊕◌}
use linux_copy.Gfp.Ring.{zero-⊗, ⊕-zero}
use linux_copy.Poly.Eval.{eval, IsPoly}
use linux_copy.Stream.{list_stream}
use linux_copy.Network.Run.{Event, Runs, Delivered}
use linux_copy.ShareBase.Vandermonde.{coefficients}
use linux_copy.Share.{Share, reveal}
use linux_copy.Share.Reveal.{party, IsRevealed, share_of}
use linux_copy.Share.Reveal.Secret.{reveal_lem}
use linux_copy.Share.Reveal.Exists.{reveal-Runs}
use linux_copy.Share.Prg.{distribute_2t_sharing_prg, get_2t_sharing_prg, own_t_share, t_sharing}
use linux_copy.Share.Prg.Laws.{distribute_2t_sharing_prg_lem, distribute_t_sharing_prg_lem}
use linux_copy.ConstMatrix.{and_name, get_func_consts, const_and8_bits}
use linux_copy.ConstMatrix.Laws.{value_at, gate, get_func_consts-gate}
use linux_copy.RandomShare.{get_random_pairs, bundles, push_rows_of_pairs}
use linux_copy.RandomShare.Queues.{
  matrix_pairs, get_random_pairs-push_rows_of_pairs, bundles-enough,
}
use linux_copy.Tests.{three_parties, three_parties-IsValid}

-- A polynomial by its constant term and its other coefficients.
abbrev pub poly : ℕ → ℕ → (ℕ → ℕ) → GfpScalar → GfpScalar
poly degree secret coeffs x = eval (suc degree) (coefficients (gfp secret) (λ k. gfp (coeffs k))) x

pub poly-IsPoly :
    (degree secret : ℕ) (coeffs : ℕ → ℕ) → IsPoly (suc degree) (λ p. poly degree secret coeffs p)
poly-IsPoly degree secret coeffs = (coefficients (gfp secret) (λ k. gfp (coeffs k)), λ x. refl)

pub poly-zero :
    (degree secret : ℕ) (coeffs : ℕ → ℕ) → poly degree secret coeffs (gfp 0) ≡ gfp secret
unfolding eval coefficients
poly-zero degree secret coeffs = ap (◌⊕◌ (gfp secret)) (zero-⊗ _) ∙ ⊕-zero (gfp secret)

pub three_relative : (i : ℕ) → i < 3 → three_parties.get_relative i 0 ≡ i
three_relative i h = ground arith

three-IsRevealed : IsRevealed three_parties 1 (λ p. poly 1 9 (λ k. 5) p)
three-IsRevealed = record {
  valid = three_parties-IsValid;
  relative = three_relative;
  enough_players = omega arith;
  supported = inl refl;
  polynomial = poly-IsPoly 1 9 (λ k. 5);
}

pub zeros : ℕ → GfpScalar
zeros i = gfp 0

revealed_run :
    (traces : ℕ → List (Event (List GfpScalar))) × (results : ℕ → Share) × ((i : ℕ)
      → i < 3
      → Runs
          (List GfpScalar)
          Share
          (reveal list_stream
            (party three_parties i)
            (share_of 1 (λ p. poly 1 9 (λ k. 5) p) zeros i)
            zeros)
          (traces i)
          (results i))
    × Delivered 3 traces
    × ((i : ℕ) → i < 3 → (results i).secret ≡ poly 1 9 (λ k. 5) (gfp 0))
revealed_run =
    reveal-Runs list_stream three_parties 1 (λ p. poly 1 9 (λ k. 5) p) three-IsRevealed zeros
      (λ i. zeros)

reveal-Runs_example :
    (traces : ℕ → List (Event (List GfpScalar))) × (results : ℕ → Share) × ((i : ℕ)
      → i < 3
      → Runs
          (List GfpScalar)
          Share
          (reveal list_stream
            (party three_parties i)
            (share_of 1 (λ p. poly 1 9 (λ k. 5) p) zeros i)
            zeros)
          (traces i)
          (results i))
    × Delivered 3 traces
    × ((i : ℕ) → i < 3 → (results i).secret ≡ poly 1 9 (λ k. 5) (gfp 0))
reveal-Runs_example =
    reveal-Runs list_stream three_parties 1 (λ p. poly 1 9 (λ k. 5) p) three-IsRevealed zeros
      (λ i. zeros)

reveal_lem_example :
    revealed_run.1 2
    ≡ record (share_of 1 (λ p. poly 1 9 (λ k. 5) p) zeros 2) { secret = poly 1 9 (λ k. 5) (gfp 0) }
reveal_lem_example =
    reveal_lem list_stream three_parties 1 (λ p. poly 1 9 (λ k. 5) p) three-IsRevealed zeros
      (λ i. zeros) revealed_run.0 revealed_run.1 revealed_run.2 revealed_run.3 2 (omega arith)

-- A sharing of degree 2 of 12, and a pair of sharings of 9.
abbrev pub product : GfpScalar → GfpScalar
product p = poly 2 12 (λ k. k + 3) p

abbrev pub mask : GfpScalar → GfpScalar
mask p = poly 1 9 (λ k. 5) p

abbrev pub big_mask : GfpScalar → GfpScalar
big_mask p = poly 2 9 (λ k. 7) p

pub masks-same : mask (gfp 0) ≡ big_mask (gfp 0)
masks-same = poly-zero 1 9 (λ k. 5) ∙ sym (poly-zero 2 9 (λ k. 7))

distribute_2t_sharing_prg_lem_example :
    (g : GfpScalar → GfpScalar) × IsPoly 3 g
    × (g (gfp 0) ≡ gfp 9)
    × (distribute_2t_sharing_prg (record three_parties { my_num = 1 }) (gfp 9) (λ k. gfp k)
        ≡ g (gfp 2))
    × ((j : ℕ)
        → j ≤ 2
        → j ≢ 1
        → get_2t_sharing_prg (record three_parties { my_num = j }) 1 (λ k. gfp k) ≡ g (gfp (j + 1)))
distribute_2t_sharing_prg_lem_example =
    distribute_2t_sharing_prg_lem three_parties 1 (gfp 9) (λ k. gfp k) (omega arith) (omega arith)

distribute_t_sharing_prg_lem_example :
    (g : GfpScalar → GfpScalar) × IsPoly 2 g
    × (g (gfp 0) ≡ gfp 9)
    × ((d : ℕ)
        → d < 3
        → own_t_share (record three_parties { my_num = d }) 1 (gfp 9) (λ k. gfp 4)
          ≡ g (gfp (d + 1)))
    × ((j : ℕ) → 0 < j → j ≤ 1 → gfp 4 ≡ g (gfp (j + 1)))
    × ((i : ℕ)
        → i ≤ 1
        → t_sharing three_parties 1 (gfp 9) (λ k. gfp 4) i ≡ g (gfp ((1 + 1 + i) % 3 + 1)))
distribute_t_sharing_prg_lem_example =
    distribute_t_sharing_prg_lem three_parties (gfp 9) (λ k. gfp 4) refl (omega arith)

get_func_consts-gate_example :
    (length const_and8_bits ≡ 8 + 1)
    × ((ones : ℕ) → ones ≤ 8 → value_at const_and8_bits (ones + 1) ≡ gate and_name 8 ones)
get_func_consts-gate_example =
    get_func_consts-gate and_name 8 const_and8_bits (unfold get_func_consts in refl)

abbrev queue : List GfpScalar
queue = gfp 1 ∷ gfp 2 ∷ gfp 3 ∷ []

get_random_pairs-push_rows_of_pairs_example :
    get_random_pairs
      (length (matrix_pairs (λ i j. gfp (i + j)) 2 0 3))
      (push_rows_of_pairs (λ i j. gfp (i + j)) 2 0 3 [])
    ≡ some (matrix_pairs (λ i j. gfp (i + j)) 2 0 3, [])
get_random_pairs-push_rows_of_pairs_example =
    get_random_pairs-push_rows_of_pairs (λ i j. gfp (i + j)) 2 3

bundles-enough_example : (5 ≤ bundles three_parties 5 * 2) × (bundles three_parties 5 * 2 < 5 + 2)
bundles-enough_example = bundles-enough three_parties 5 (omega arith)

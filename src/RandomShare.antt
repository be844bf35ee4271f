-- ===== src/RandomShare.antt =====
-- Protocols/RandomShare.h and Protocols/RandomShare.cpp: the queues of preprocessed sharings, and
-- what the generators compute from the sharings that the parties have input. A queue is the list of
-- its elements, the front first; `none` is a failed assertion.
pub mod Queues
pub mod Extract
pub mod Bit
use mathlib.Core.Option
use linux_copy.Common.{
  ℕ, zero, suc, ◌+◌, ◌-◌, ◌*◌, ◌/◌, ◌%◌, ◌==◌, leb, if◌then◌else◌, List, [], ◌∷◌, ◌++◌, length,
  Option, none, some, tabulate,
}
use linux_copy.Gfp.{GfpScalar, gfp, ◌⊕◌, ◌⊗◌, ◌⊘◌, is_zero}
use linux_copy.Poly.Sum.{dot}
use linux_copy.ShareBase.{ShareBase, get_vandermonde}

unfoldable pub get_random : List GfpScalar → Option (GfpScalar × List GfpScalar)
get_random [] = none
get_random (res ∷ q) = some (res, q)

-- The loop of `get_randoms`, with the entries that are left.
unfoldable pub get_randoms_loop : ℕ → List GfpScalar → Option (List GfpScalar × List GfpScalar)
get_randoms_loop zero q = some ([], q)
get_randoms_loop (suc num) [] = none
get_randoms_loop (suc num) (x ∷ q) = Option.map (λ got. (x ∷ got.0, got.1)) (get_randoms_loop num q)

unfoldable pub get_randoms : ℕ → List GfpScalar → Option (List GfpScalar × List GfpScalar)
unfolding get_randoms_loop
get_randoms num q = if leb num (length q) then get_randoms_loop num q else none

unfoldable pub get_random_pair : List GfpScalar → Option (GfpScalar × GfpScalar × List GfpScalar)
get_random_pair (r ∷ aux_r ∷ q) = some (r, aux_r, q)
get_random_pair q = none

unfoldable pub get_random_pairs_loop :
    ℕ → List GfpScalar → Option (List (GfpScalar × GfpScalar) × List GfpScalar)
get_random_pairs_loop zero q = some ([], q)
get_random_pairs_loop (suc num) (r ∷ aux_r ∷ q) =
    Option.map (λ got. ((r, aux_r) ∷ got.0, got.1)) (get_random_pairs_loop num q)
get_random_pairs_loop (suc num) q = none

unfoldable pub get_random_pairs :
    ℕ → List GfpScalar → Option (List (GfpScalar × GfpScalar) × List GfpScalar)
unfolding get_random_pairs_loop
get_random_pairs num q = if leb (num * 2) (length q) then get_random_pairs_loop num q else none

unfoldable pub get_random_triple :
    List GfpScalar → Option (GfpScalar × GfpScalar × GfpScalar × List GfpScalar)
get_random_triple (r ∷ aux_r ∷ sub_r ∷ q) = some (r, aux_r, sub_r, q)
get_random_triple q = none

unfoldable pub get_random_triples_loop :
    ℕ → List GfpScalar → Option (List (GfpScalar × GfpScalar × GfpScalar) × List GfpScalar)
get_random_triples_loop zero q = some ([], q)
get_random_triples_loop (suc num) (r ∷ aux_r ∷ sub_r ∷ q) =
    Option.map (λ got. ((r, aux_r, sub_r) ∷ got.0, got.1)) (get_random_triples_loop num q)
get_random_triples_loop (suc num) q = none

unfoldable pub get_random_triples :
    ℕ → List GfpScalar → Option (List (GfpScalar × GfpScalar × GfpScalar) × List GfpScalar)
unfolding get_random_triples_loop
get_random_triples num q = if leb (num * 3) (length q) then get_random_triples_loop num q else none

module _ (c : ShareBase) where
  open c use {n_players, threshold}

  unfoldable pub bundles : ℕ → ℕ
  bundles num =
      let res = num / (n_players - threshold) in
      if num % (n_players - threshold) == 0 then res else res + 1

  -- `vandermonde_n_t.transpose() * crude_inputs`, from this party's shares of the inputs of all
  -- parties, one row for each.
  unfoldable pub extracted_random : (ℕ → ℕ → GfpScalar) → ℕ → ℕ → GfpScalar
  extracted_random crude_inputs i j =
      dot n_players (λ k. get_vandermonde k i) (λ k. crude_inputs k j)

  -- The end of `generate_random_sharings`: the entries of the matrix, by rows.
  unfoldable pub push_extracted : ℕ → (ℕ → ℕ → GfpScalar) → List GfpScalar → List GfpScalar
  unfolding extracted_random
  push_extracted bundle_size crude_inputs q =
      q
      ++ tabulate ((n_players - threshold) * bundle_size)
          (λ i. extracted_random crude_inputs (i / bundle_size) (i % bundle_size))

-- The loop on the columns of `generate_reduced_random_sharings`, with the columns that are left.
unfoldable pub push_pairs : (ℕ → GfpScalar) → ℕ → ℕ → ℕ → List GfpScalar → List GfpScalar
push_pairs row j k zero q = q
push_pairs row j k (suc left) q = push_pairs row (suc j) (suc k) left (q ++ (row j ∷ row k ∷ []))

-- The loop on the rows.
unfoldable pub push_rows_of_pairs :
    (ℕ → ℕ → GfpScalar) → ℕ → ℕ → ℕ → List GfpScalar → List GfpScalar
unfolding push_pairs
push_rows_of_pairs extracted bundle_size i zero q = q
push_rows_of_pairs extracted bundle_size i (suc left) q =
    push_rows_of_pairs extracted bundle_size (suc i) left
      (push_pairs (extracted i) 0 bundle_size bundle_size q)

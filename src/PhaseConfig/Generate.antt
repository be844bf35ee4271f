-- ===== src/PhaseConfig/Generate.antt =====
-- Protocols/PhaseConfig.cpp: the requests for preprocessed sharings, their counters, and the file
-- that says how many of each. A request is the call of the generator that the method makes.
pub mod Counters
use linux_copy.Common.{
  ℕ, zero, suc, ◌+◌, ◌*◌, ◌==◌, if◌then◌else◌, Option, none, some, List, [], ◌∷◌, length,
}
use linux_copy.Scalar.{fixed_precision}
use linux_copy.PhaseConfig.{PhaseConfig}

pub data Request : Type 0 where
  random_sharings : ℕ → Request
  random_bits : ℕ → Request
  reduced_random_sharings : ℕ → Request
  truncated_random_sharings : ℕ → Request
  truncated_with_precision : ℕ → ℕ → Request
  reduced_truncated_sharings : ℕ → Request
  reduced_truncated_in_ml : ℕ → ℕ → Request
  reduced_truncated_with_precision : ℕ → ℕ → Request
  reduced_truncated_with_precisions : ℕ → List ℕ → ℕ → Request
  unbounded_mult : ℕ → ℕ → Request
  unbounded_mult_single : ℕ → Request

unfoldable pub generate_random_sharings : PhaseConfig → ℕ → PhaseConfig × Request
generate_random_sharings self n =
    (record self { cnt_random = self.cnt_random + n }, random_sharings n)

unfoldable pub generate_random_bits : PhaseConfig → ℕ → PhaseConfig × Request
generate_random_bits self n =
    (record self { cnt_random_bit = self.cnt_random_bit + n }, random_bits n)

unfoldable pub generate_reduced_random_sharings : PhaseConfig → ℕ → PhaseConfig × Request
generate_reduced_random_sharings self n =
    (record self { cnt_reduced_random = self.cnt_reduced_random + n }, reduced_random_sharings n)

unfoldable pub generate_truncated_random_sharings : PhaseConfig → ℕ → PhaseConfig × Request
generate_truncated_random_sharings self n = (
  record self { cnt_truncated_random = self.cnt_truncated_random + n },
  truncated_random_sharings n,
)

unfoldable pub generate_truncated_with_precision : PhaseConfig → ℕ → ℕ → PhaseConfig × Request
generate_truncated_with_precision self n precision = (
  record self { cnt_truncated_random_in_ml = self.cnt_truncated_random_in_ml + n },
  truncated_with_precision n precision,
)

unfoldable pub generate_reduced_truncated_sharings : PhaseConfig → ℕ → PhaseConfig × Request
generate_reduced_truncated_sharings self n = (
  record self { cnt_reduced_truncated_random = self.cnt_reduced_truncated_random + n },
  reduced_truncated_sharings n,
)

unfoldable pub generate_reduced_truncated_in_ml : PhaseConfig → ℕ → ℕ → ℕ → PhaseConfig × Request
generate_reduced_truncated_in_ml self n log_learning_rate log_mini_batch = (
  record self { cnt_reduced_truncated_in_ml_random = self.cnt_reduced_truncated_in_ml_random + n },
  reduced_truncated_in_ml n (fixed_precision + log_learning_rate + log_mini_batch),
)

unfoldable pub generate_reduced_truncated_with_precision :
    PhaseConfig → ℕ → ℕ → PhaseConfig × Request
generate_reduced_truncated_with_precision self n precision = (
  record self {
    cnt_rt_random_with_different_precision = self.cnt_rt_random_with_different_precision + n;
  },
  reduced_truncated_with_precision n precision,
)

unfoldable pub generate_reduced_truncated_with_precisions :
    PhaseConfig → ℕ → List ℕ → ℕ → PhaseConfig × Request
generate_reduced_truncated_with_precisions self n precision num_repetition = (
  record self {
    cnt_rt_random_with_different_precision =
        self.cnt_rt_random_with_different_precision + n * num_repetition;
  },
  reduced_truncated_with_precisions n precision num_repetition,
)

-- The size of the first request stands; `none` is the failed assertion of another one.
unfoldable pub generate_unbounded_mult_random_sharings :
    PhaseConfig → ℕ → ℕ → Option (PhaseConfig × Request)
generate_unbounded_mult_random_sharings self x_size y_size =
    let counted = record self {
      cnt_unbounded_mult_random = self.cnt_unbounded_mult_random + x_size;
    } in
    if counted.const_unbounded_size == 0
    then some (record counted { const_unbounded_size = y_size }, unbounded_mult x_size y_size)
    else if y_size == counted.const_unbounded_size
    then some (counted, unbounded_mult x_size y_size)
    else none

unfoldable pub generate_unbounded_mult_single : PhaseConfig → ℕ → PhaseConfig × Request
generate_unbounded_mult_single self num = (self, unbounded_mult_single num)

-- A round of `generate_random` for a number of the file other than zero, with the numbers after it,
-- of which the case 3 reads one more.
unfoldable pub generate_case :
    ℕ → ℕ → List ℕ → PhaseConfig → Option (PhaseConfig × Request × List ℕ)
unfolding generate_random_sharings generate_reduced_random_sharings generate_random_bits
    generate_unbounded_mult_random_sharings generate_truncated_random_sharings
    generate_reduced_truncated_sharings
generate_case zero x input self =
    let done = generate_random_sharings self x in some (done.0, done.1, input)
generate_case (suc zero) x input self =
    let done = generate_reduced_random_sharings self x in some (done.0, done.1, input)
generate_case (suc (suc zero)) x input self =
    let done = generate_random_bits self x in some (done.0, done.1, input)
generate_case (suc (suc (suc zero))) x [] self = none
generate_case (suc (suc (suc zero))) x (y ∷ input) self =
    elim (generate_unbounded_mult_random_sharings self x y) [
      | none ↦ none
      | some done ↦ some (done.0, done.1, input)
    ]
generate_case (suc (suc (suc (suc zero)))) x input self =
    let done = generate_truncated_random_sharings self x in some (done.0, done.1, input)
generate_case (suc (suc (suc (suc (suc i))))) x input self =
    let done = generate_reduced_truncated_sharings self x in some (done.0, done.1, input)

-- The rounds of `generate_random` that are left, from round `i` on. `none` is a failed assertion, or
-- a file that ends too early, of which the code does not take notice.
unfoldable pub generate_random_loop :
    ℕ → ℕ → List ℕ → PhaseConfig → Option (PhaseConfig × List Request)
unfolding generate_case
generate_random_loop zero i input self = some (self, [])
generate_random_loop (suc rounds) i [] self = none
generate_random_loop (suc rounds) i (zero ∷ input) self =
    generate_random_loop rounds (suc i) input self
generate_random_loop (suc rounds) i (suc x ∷ input) self =
    elim (generate_case i (suc x) input self) [
      | none ↦ none
      | some done ↦ elim (generate_random_loop rounds (suc i) done.2 done.0) [
        | none ↦ none
        | some rest ↦ some (rest.0, done.1 ∷ rest.1)
      ]
    ]

unfoldable pub generate_random : List ℕ → PhaseConfig → Option (PhaseConfig × List Request)
unfolding generate_random_loop
generate_random input self = generate_random_loop 6 0 input self

-- ===== src/PhaseConfig/Generate/Counters.antt =====
-- The counters of `PhaseConfig` and the requests that are made.
use linux_copy.Common.{ℕ, ◌+◌, ◌≡◌, Option, List, [], ◌∷◌}
use linux_copy.PhaseConfig.{PhaseConfig}
use linux_copy.PhaseConfig.Generate.{
  Request, random_sharings, random_bits, reduced_random_sharings, truncated_random_sharings,
  reduced_truncated_sharings, unbounded_mult,
}

-- The six kinds of sharings that a file asks for.
pub data Kind : Type 0 where
  random_kind : Kind
  bit_kind : Kind
  reduced_kind : Kind
  unbounded_kind : Kind
  truncated_kind : Kind
  reduced_truncated_kind : Kind

unfoldable pub counter : Kind → PhaseConfig → ℕ
counter random_kind self = self.cnt_random
counter bit_kind self = self.cnt_random_bit
counter reduced_kind self = self.cnt_reduced_random
counter unbounded_kind self = self.cnt_unbounded_mult_random
counter truncated_kind self = self.cnt_truncated_random
counter reduced_truncated_kind self = self.cnt_reduced_truncated_random

-- How many of the kind a request asks for.
unfoldable pub amount : Kind → Request → ℕ
amount random_kind (random_sharings n) = n
amount bit_kind (random_bits n) = n
amount reduced_kind (reduced_random_sharings n) = n
amount unbounded_kind (unbounded_mult x_size y_size) = x_size
amount truncated_kind (truncated_random_sharings n) = n
amount reduced_truncated_kind (reduced_truncated_sharings n) = n
amount k r = 0

unfoldable pub total : Kind → List Request → ℕ
unfolding amount
total k [] = 0
total k (r ∷ rs) = amount k r + total k rs

-- A method counts what it requests.
Counts : Kind → PhaseConfig → PhaseConfig → Request → Type 0
unfolding counter amount
Counts k self next r = counter k next ≡ counter k self + amount k r

counted_mult : PhaseConfig → ℕ → ℕ → PhaseConfig
counted_mult self x_size size = record self {
  cnt_unbounded_mult_random = self.cnt_unbounded_mult_random + x_size;
  const_unbounded_size = size;
}

-- Counters after several requests.
CountsAll : Kind → PhaseConfig → PhaseConfig × List Request → Type 0
unfolding counter total
CountsAll k self res = counter k res.0 ≡ counter k self + total k res.1

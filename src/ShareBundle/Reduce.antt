-- ===== src/ShareBundle/Reduce.antt =====
-- Protocols/ShareBundle.cpp, class ShareBundle: the degree reduction and the truncations, in the
-- build without `ZERO_OFFLINE`. The queues of preprocessed sharings are passed along.
pub mod Exists
pub mod Errors
use linux_copy.Common.{ℕ, ◌+◌, ◌*◌, ◌^◌, ◌==◌, if◌then◌else◌, List, get_or, Option, none, some}
use linux_copy.Scalar.{const_encode, fixed_precision}
use linux_copy.Gfp.{GfpScalar, gfp, ◌⊕◌, ◌⊖◌}
use linux_copy.Stream.{OctetStream}
use linux_copy.Network.{Proc, ret, ◌>>=◌, ◌>>◌, or_abort, check}
use linux_copy.RandomShare.{get_random_pairs, get_random_triples}
use linux_copy.ShareBase.{ShareBase}
use linux_copy.Share.Reduce.{truncated_share}
use linux_copy.ShareBundle.{ShareBundle, size, double_degree, halve_degree, set_shares}
use linux_copy.ShareBundle.Block.{reveal_blocks_dispersed}
use linux_copy.ShareBundle.Prg.Blocks.{input_blocks_dispersed_prg}
use linux_copy.ShareBundle.Reveal.{reveal_truncate}

-- The matrices that the pairs and the triples of a queue fill.
abbrev pub pair_at : List (GfpScalar × GfpScalar) → ℕ → GfpScalar × GfpScalar
pair_at pairs x = get_or pairs x (gfp 0, gfp 0)

abbrev pub triple_at :
    List (GfpScalar × GfpScalar × GfpScalar) → ℕ → GfpScalar × GfpScalar × GfpScalar
triple_at triples x = get_or triples x (gfp 0, gfp 0, gfp 0)

-- `shares += R.aux_shares` and `shares = shares - R.shares`.
unfoldable pub add_shares : (ℕ → GfpScalar) → ShareBundle → ShareBundle
unfolding set_shares
add_shares m self = set_shares (λ x. self.shares x ⊕ m x) self

unfoldable pub sub_shares : (ℕ → GfpScalar) → ShareBundle → ShareBundle
unfolding set_shares
sub_shares m self = set_shares (λ x. self.shares x ⊖ m x) self

module _ (s : OctetStream) (c : ShareBase) where
  open s use {Octets}
  open c use {threshold}

  unfoldable pub reduce_degree :
      ShareBundle
      → List GfpScalar
      → (ℕ → ℕ → GfpScalar)
      → (ℕ → ℕ → ℕ → GfpScalar)
      → Proc Octets (ShareBundle × List GfpScalar)
  unfolding double_degree size add_shares sub_shares reveal_blocks_dispersed
      input_blocks_dispersed_prg
  reduce_degree self q fresh shares_prng = do
    let doubled = double_degree self
    check (doubled.degree == threshold * 2 ^ 1)
    drawn ← or_abort (get_random_pairs (size self) q)
    revealed ← reveal_blocks_dispersed s c (add_shares (λ x. (pair_at drawn.0 x).1) doubled) fresh
    dealt ← input_blocks_dispersed_prg s c (halve_degree revealed) shares_prng
    ret (sub_shares (λ x. (pair_at drawn.0 x).0) dealt, drawn.1)

  -- The part that `truncate` and `reduce_truncate` share: reveal the encoded and masked shares, and
  -- correct what was revealed by the truncated mask and its most significant bit.
  unfoldable pub reveal_corrected :
      ShareBundle
      → List (GfpScalar × GfpScalar × GfpScalar)
      → (ℕ → ℕ → GfpScalar)
      → Proc Octets ShareBundle
  unfolding reveal_truncate add_shares set_shares truncated_share
  reveal_corrected self r fresh = do
    revealed ←
        reveal_truncate s c (add_shares (λ x. (triple_at r x).1 ⊕ gfp const_encode) self)
          (λ x. fixed_precision) fresh
    ret (
        set_shares (λ x. truncated_share (revealed.secrets x) (triple_at r x).0 (triple_at r x).2)
          revealed)

  unfoldable pub truncate_shares :
      ShareBundle
      → List GfpScalar
      → (ℕ → ℕ → GfpScalar)
      → Proc Octets (ShareBundle × List GfpScalar)
  unfolding reveal_corrected size
  truncate_shares self q fresh = do
    check (self.degree == threshold)
    drawn ← or_abort (get_random_triples (size self) q)
    truncated ← reveal_corrected self drawn.0 fresh
    ret (truncated, drawn.1)

  unfoldable pub reduce_truncate :
      ShareBundle
      → List GfpScalar
      → (ℕ → ℕ → GfpScalar)
      → Proc Octets (ShareBundle × List GfpScalar)
  unfolding reveal_corrected size double_degree
  reduce_truncate self q fresh = do
    let doubled = double_degree self
    check (doubled.degree == threshold * 2 ^ 1)
    drawn ← or_abort (get_random_triples (size self) q)
    truncated ← reveal_corrected doubled drawn.0 fresh
    ret (halve_degree truncated, drawn.1)

  -- The versions with a precision, which take pairs and do not encode.
  unfoldable pub reveal_masked :
      ShareBundle
      → (ℕ → ℕ)
      → List (GfpScalar × GfpScalar)
      → (ℕ → ℕ → GfpScalar)
      → Proc Octets ShareBundle
  unfolding reveal_truncate add_shares set_shares
  reveal_masked self precision r fresh = do
    revealed ← reveal_truncate s c (add_shares (λ x. (pair_at r x).1) self) precision fresh
    ret (set_shares (λ x. revealed.secrets x ⊖ (pair_at r x).0) revealed)

  unfoldable pub truncate_precision :
      ShareBundle
      → ℕ
      → List GfpScalar
      → (ℕ → ℕ → GfpScalar)
      → Proc Octets (ShareBundle × List GfpScalar)
  unfolding reveal_masked size
  truncate_precision self precision q fresh = do
    check (self.degree == threshold)
    drawn ← or_abort (get_random_pairs (size self) q)
    truncated ← reveal_masked self (λ x. precision) drawn.0 fresh
    ret (truncated, drawn.1)

  -- One precision for each entry. With a constant one it is the version with one precision, and with
  -- `FIXED_PRECISION + logLearningRate + logMiniBatch` that of the two logarithms.
  unfoldable pub reduce_truncate_precision :
      ShareBundle
      → (ℕ → ℕ)
      → List GfpScalar
      → (ℕ → ℕ → GfpScalar)
      → Proc Octets (ShareBundle × List GfpScalar)
  unfolding reveal_masked size double_degree
  reduce_truncate_precision self precision q fresh = do
    let doubled = double_degree self
    check (doubled.degree == threshold * 2 ^ 1)
    drawn ← or_abort (get_random_pairs (size self) q)
    truncated ← reveal_masked doubled precision drawn.0 fresh
    ret (halve_degree truncated, drawn.1)

  unfoldable pub reduce_truncate_learning :
      ShareBundle
      → ℕ
      → ℕ
      → List GfpScalar
      → (ℕ → ℕ → GfpScalar)
      → Proc Octets (ShareBundle × List GfpScalar)
  unfolding reduce_truncate_precision
  reduce_truncate_learning self log_learning_rate log_mini_batch q fresh =
      reduce_truncate_precision self (λ x. fixed_precision + log_learning_rate + log_mini_batch) q
        fresh

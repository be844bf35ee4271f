-- ===== src/Share/Reduce.antt =====
-- Protocols/Share.cpp: the degree reduction and the truncations of class Share, and class DoubleShare,
-- in the build without `ZERO_OFFLINE`. The queues of preprocessed sharings are passed along.
pub mod Secret
use linux_copy.Common.{
  ℕ, zero, suc, ◌+◌, ◌-◌, ◌*◌, ◌/◌, ◌==◌, ◌^◌, if◌then◌else◌, List, [], ◌∷◌, tabulate, get_or,
  replicate, Option, none, some,
}
use linux_copy.Scalar.{
  const_encode, const_decode, const_gap_in_truncation, fixed_precision, truncate, msb,
}
use linux_copy.Gfp.{GfpScalar, gfp, ◌⊕◌, ◌⊖◌, ◌⊗◌}
use linux_copy.Gfp.Power.{pow}
use linux_copy.Stream.{OctetStream, unpack}
use linux_copy.Network.{Proc, ret, ◌>>=◌, ◌>>◌, receive_player, or_abort, check, send_from}
use linux_copy.RandomShare.{get_random_pair, get_random_triple}
use linux_copy.ShareBase.{ShareBase}
use linux_copy.Share.{Share, reveal, calculate_sharing}
use linux_copy.Share.Prg.{
  distribute_t_sharint_prg, distribute_2t_sharing_prg, get_t_sharing_prg, get_2t_sharing_prg,
}

pub record DoubleShare : Type 0 where
  pub base : Share
  pub aux_share : GfpScalar

-- `reduced_random` and the pair of `reduced_truncated_random(precision)`: the shares `[r]_t` and
-- `[r]_2t`, from the queue of each. `truncated_random` and `reduced_truncated_random` take a triple.
abbrev pub reduced_random : List GfpScalar → Option (GfpScalar × GfpScalar × List GfpScalar)
reduced_random queue_reduced_random = get_random_pair queue_reduced_random

abbrev pub truncated_random :
    List GfpScalar → Option (GfpScalar × GfpScalar × GfpScalar × List GfpScalar)
truncated_random queue_truncated_random = get_random_triple queue_truncated_random

unfoldable pub double_degree : Share → Share
double_degree self = record self { degree = self.degree * 2 ^ 1 }

-- The share of the truncated value: `secret` is what was revealed, already truncated.
unfoldable pub truncated_share : GfpScalar → GfpScalar → GfpScalar → GfpScalar
truncated_share secret r_share r_msb =
    let is_overflow = (gfp 1 ⊖ r_msb) ⊗ gfp (msb secret.value) in
    ((secret ⊖ r_share) ⊕ gfp const_gap_in_truncation ⊗ is_overflow) ⊖ gfp const_decode

module _ (s : OctetStream) (c : ShareBase) where
  open s use {Octets, empty}
  open c use {n_players, threshold, my_num}

  unfoldable pub reduce_degree :
      Share → List GfpScalar → (ℕ → GfpScalar) → Proc Octets (Share × List GfpScalar)
  unfolding double_degree
  reduce_degree self q fresh = do
    let doubled = double_degree self
    check (doubled.degree == threshold * 2 ^ 1)
    drawn ← or_abort (reduced_random q)
    self' ← reveal s c (record doubled { share = doubled.share ⊕ drawn.1 }) fresh
    ret (record self' { degree = self'.degree / 2 ^ 1; share = self'.secret ⊖ drawn.0 }, drawn.2)

  -- `truncate`, and `reduce_truncate` after the degree is doubled: both reveal the masked share and
  -- correct it by the mask's truncation.
  unfoldable pub reveal_truncated :
      Share → GfpScalar × GfpScalar × GfpScalar → (ℕ → GfpScalar) → Proc Octets Share
  unfolding truncated_share
  reveal_truncated self r fresh = do
    self' ← reveal s c (record self { share = self.share ⊕ (r.1 ⊕ gfp const_encode) }) fresh
    let secret = gfp (truncate self'.secret.value fixed_precision)
    ret (record self' { secret = secret; share = truncated_share secret r.0 r.2 })

  unfoldable pub truncate_share :
      Share → List GfpScalar → (ℕ → GfpScalar) → Proc Octets (Share × List GfpScalar)
  unfolding reveal_truncated
  truncate_share self q fresh = do
    check (self.degree == threshold)
    drawn ← or_abort (truncated_random q)
    self' ← reveal_truncated self (drawn.0, drawn.1, drawn.2) fresh
    ret (self', drawn.3)

  unfoldable pub reduce_truncate :
      Share → List GfpScalar → (ℕ → GfpScalar) → Proc Octets (Share × List GfpScalar)
  unfolding reveal_truncated double_degree
  reduce_truncate self q fresh = do
    let doubled = double_degree self
    check (doubled.degree == threshold * 2 ^ 1)
    drawn ← or_abort (truncated_random q)
    self' ← reveal_truncated doubled (drawn.0, drawn.1, drawn.2) fresh
    ret (record self' { degree = self'.degree / 2 ^ 1 }, drawn.3)

  -- The version with a precision keeps the doubled degree: `degree >> 1;` changes nothing.
  unfoldable pub reduce_truncate_precision :
      Share → ℕ → List GfpScalar → (ℕ → GfpScalar) → Proc Octets (Share × List GfpScalar)
  unfolding double_degree
  reduce_truncate_precision self precision q fresh = do
    let doubled = double_degree self
    check (doubled.degree == threshold * 2 ^ 1)
    drawn ← or_abort (reduced_random q)
    self' ← reveal s c (record doubled { share = doubled.share ⊕ drawn.1 }) fresh
    let secret = gfp (truncate self'.secret.value precision)
    ret (record self' { secret = secret; share = secret ⊖ drawn.0 }, drawn.2)

  -- `DoubleShare::input_from_random` and `input_from_ath_random`: two sharings in one message. The
  -- second secret and degree are what the two methods differ in.
  unfoldable pub input_two_sharings :
      DoubleShare
      → ℕ
      → GfpScalar
      → GfpScalar
      → ℕ
      → (ℕ → GfpScalar)
      → (ℕ → GfpScalar)
      → Proc Octets DoubleShare
  input_two_sharings self player_no drawn second second_degree coeffs second_coeffs =
      let dealer = do
        first ←
            or_abort
              (calculate_sharing s c drawn self.base.degree coeffs (replicate n_players empty))
        both ← or_abort (calculate_sharing s c second second_degree second_coeffs first.1)
        send_from my_num 0 both.1
        ret (record self {
          base = record self.base { secret = second; share = first.0 };
          aux_share = both.0;
        })
      in let receiver = do
        o ← receive_player player_no
        let (shares, rest) = s.consume o 1
        ret (record self {
          base = record self.base { share = get_or shares 0 (gfp 0) };
          aux_share = unpack s rest;
        })
        in check (self.base.degree == threshold)
          >> (if player_no == my_num then dealer else receiver)

  unfoldable pub double_input_from_random :
      DoubleShare → ℕ → GfpScalar → (ℕ → GfpScalar) → (ℕ → GfpScalar) → Proc Octets DoubleShare
  unfolding input_two_sharings
  double_input_from_random self player_no drawn coeffs second_coeffs =
      input_two_sharings self player_no drawn drawn (self.base.degree * 2 ^ 1) coeffs second_coeffs

  unfoldable pub double_input_from_ath_random :
      DoubleShare → ℕ → ℕ → GfpScalar → (ℕ → GfpScalar) → (ℕ → GfpScalar) → Proc Octets DoubleShare
  unfolding input_two_sharings
  double_input_from_ath_random self player_no a drawn coeffs second_coeffs =
      input_two_sharings self player_no drawn (pow drawn a) self.base.degree coeffs second_coeffs

  unfoldable pub double_input_from_random_prg :
      DoubleShare → ℕ → GfpScalar → (ℕ → GfpScalar) → (ℕ → GfpScalar) → Proc Octets DoubleShare
  unfolding distribute_t_sharint_prg distribute_2t_sharing_prg get_t_sharing_prg get_2t_sharing_prg
  double_input_from_random_prg self player_no drawn shares_prng more_prng =
      let degree = self.base.degree in
      let dealer = do
        share ← distribute_t_sharint_prg s c degree drawn shares_prng
        ret (record self {
          base = record self.base { secret = drawn; share = share };
          aux_share = distribute_2t_sharing_prg c drawn more_prng;
        })
      in let receiver = do
        share ← get_t_sharing_prg s c degree player_no shares_prng
        ret (record self {
          base = record self.base { share = share };
          aux_share = get_2t_sharing_prg c player_no more_prng;
        })
        in check (degree == threshold) >> (if player_no == my_num then dealer else receiver)

  -- `reveal_aux(degree)`. (The new share's secret, which is not set, is that of the base.)
  unfoldable pub reveal_aux : DoubleShare → ℕ → (ℕ → GfpScalar) → Proc Octets GfpScalar
  reveal_aux self degree fresh = do
    aux ← reveal s c (record self.base { share = self.aux_share; degree = degree }) fresh
    ret aux.secret

-- ===== src/ShareBundle/Prg.antt =====
-- Protocols/ShareBundle.cpp, class ShareBundle: the methods that draw shares from the generator that
-- the parties have agreed on. What the generator yields is the argument `shares_prng`, a matrix with
-- a column for each secret, the same for all parties.
pub mod Input
pub mod Blocks
pub mod Streams
pub mod Deal
pub mod Settle
pub mod Dealing
pub mod Finish
pub mod Exists
pub mod Values
use mathlib.Core.Option
use linux_copy.Common.{
  ℕ, ◌+◌, ◌-◌, ◌*◌, ◌^◌, ◌==◌, ltb, if◌then◌else◌, List, replicate, Option, none, some, length,
  ◌&&◌,
}
use linux_copy.Gfp.{GfpScalar}
use linux_copy.Stream.{OctetStream}
use linux_copy.Matrix.Pack.{pack_rows, unpack_matrix}
use linux_copy.Network.{Proc, ret, ◌>>=◌, ◌>>◌, receive_player, or_abort, check, send_window}
use linux_copy.ShareBase.{ShareBase}
use linux_copy.Share.Prg.{
  distribute_2t_sharing_prg, get_2t_sharing_prg, t_sharing, own_t_share, has_prng_share,
}
use linux_copy.ShareBundle.{ShareBundle, size, set_shares, stored, shaped, linear}

module _ (c : ShareBase) where
  open c use {n_players, threshold, my_num}

  -- Each column is the scalar method on one secret: the matrix products have a column for each.
  unfoldable pub calculate_2t_sharings_prg : (ℕ → GfpScalar) → (ℕ → ℕ → GfpScalar) → ℕ → GfpScalar
  unfolding distribute_2t_sharing_prg
  calculate_2t_sharings_prg secrets shares_prng j =
      distribute_2t_sharing_prg c (secrets j) (λ k. shares_prng k j)

  unfoldable pub get_2t_sharings_prg : ℕ → (ℕ → ℕ → GfpScalar) → ℕ → GfpScalar
  get_2t_sharings_prg player_no shares_prng j =
      if ltb player_no my_num then shares_prng (my_num - 1) j else shares_prng my_num j

  -- The matrix `sharings`: the shares of the parties that the dealer sends to.
  unfoldable pub t_sharings : ℕ → (ℕ → GfpScalar) → (ℕ → ℕ → GfpScalar) → ℕ → ℕ → GfpScalar
  unfolding t_sharing
  t_sharings degree secrets shares_prng i j =
      t_sharing c degree (secrets j) (λ k. shares_prng k j) i

  unfoldable pub own_t_shares : ℕ → (ℕ → GfpScalar) → (ℕ → ℕ → GfpScalar) → ℕ → GfpScalar
  unfolding t_sharings has_prng_share
  own_t_shares degree secrets shares_prng j =
      if has_prng_share c degree
      then shares_prng (my_num - 1) j
      else if my_num == 0
      then t_sharings degree secrets shares_prng degree j
      else t_sharings degree secrets shares_prng (my_num - degree - 1) j

module _ (s : OctetStream) (c : ShareBase) where
  open s use {Octets, empty}
  open c use {n_players, threshold, my_num, positive_modulo}

  -- The party's own shares and the streams. The assertions are that of the method, that of the
  -- product, whose sizes have to agree, and the one on the number of streams.
  unfoldable pub calculate_t_sharings_prg :
      ℕ
      → (ℕ → GfpScalar)
      → ℕ
      → (ℕ → ℕ → GfpScalar)
      → List Octets
      → Proc Octets ((ℕ → GfpScalar) × List Octets)
  unfolding own_t_shares t_sharings pack_rows
  calculate_t_sharings_prg degree secrets n_secrets shares_prng os = do
    check (degree == threshold)
    check (n_players - threshold == degree + 1)
    check (n_players - threshold == length os)
    packed ← or_abort (
        pack_rows s
          (stored (n_players - threshold) n_secrets (t_sharings c degree secrets shares_prng)) os)
    ret (own_t_shares c degree secrets shares_prng, packed)

  -- `P->send_respective(start_party_PRG(), n_party_PRG(), os)`.
  unfoldable pub send_prg : List Octets → Proc Octets (Unit {0})
  send_prg os = send_window my_num (λ i. positive_modulo i n_players) (threshold + 1) os

  unfoldable pub get_t_sharings_prg :
      ShareBundle → ℕ → (ℕ → ℕ → GfpScalar) → Proc Octets (ℕ → GfpScalar)
  unfolding has_prng_share unpack_matrix
  get_t_sharings_prg self player_no shares_prng =
      let received = do
        o ← receive_player player_no
        ret (linear (unpack_matrix s (shaped self self.shares) o))
      in if has_prng_share c self.degree then ret (shares_prng (my_num - 1)) else received

  unfoldable pub distribute_sharings_prg :
      ShareBundle → (ℕ → ℕ → GfpScalar) → Proc Octets (ℕ → GfpScalar)
  unfolding calculate_t_sharings_prg calculate_2t_sharings_prg send_prg size
  distribute_sharings_prg self shares_prng =
      let low = do
        calculated ←
            calculate_t_sharings_prg self.degree self.secrets (size self) shares_prng
              (replicate (self.degree + 1) empty)
        send_prg calculated.1
        ret calculated.0
      in if self.degree == threshold
        then low
        else ret (calculate_2t_sharings_prg c self.secrets shares_prng)

  unfoldable pub get_sharings_prg :
      ShareBundle → ℕ → (ℕ → ℕ → GfpScalar) → Proc Octets (ℕ → GfpScalar)
  unfolding get_t_sharings_prg get_2t_sharings_prg
  get_sharings_prg self player_no shares_prng =
      if self.degree == threshold
      then get_t_sharings_prg self player_no shares_prng
      else ret (get_2t_sharings_prg c player_no shares_prng)

  -- The request draws from the generator; the shares it drew are used at the wait.
  unfoldable pub get_t_sharings_prg_wait :
      ShareBundle → ℕ → (ℕ → ℕ → GfpScalar) → Proc Octets ShareBundle
  unfolding has_prng_share unpack_matrix set_shares
  get_t_sharings_prg_wait self player_no shares_prng =
      let received = do
        o ← receive_player player_no
        ret (set_shares (linear (unpack_matrix s (shaped self self.shares) o)) self)
      in if has_prng_share c self.degree
        then ret (set_shares (shares_prng (my_num - 1)) self)
        else received

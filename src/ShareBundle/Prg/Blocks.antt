-- ===== src/ShareBundle/Prg/Blocks.antt =====
-- Protocols/ShareBundle.cpp, class ShareBundle: the dispersed inputs, where each party deals one
-- block of rows, in the version with coefficients drawn by the dealer and in the version with the
-- generator that the parties have agreed on.
use linux_copy.Common.{ℕ, zero, suc, ◌+◌, ◌-◌, ◌*◌, ◌/◌, ◌==◌, if◌then◌else◌, List, replicate}
use linux_copy.Gfp.{GfpScalar}
use linux_copy.Stream.{OctetStream}
use linux_copy.Matrix.Pack.{unpack_block}
use linux_copy.Network.{Proc, ret, ◌>>=◌, ◌>>◌, receive_player, check, send_from}
use linux_copy.ShareBase.{ShareBase}
use linux_copy.Share.Prg.{has_prng_share}
use linux_copy.ShareBundle.{ShareBundle, set_shares, shaped, linear}
use linux_copy.ShareBundle.Block.{write_block, check_block, calculate_block_sharings}
use linux_copy.ShareBundle.Prg.{calculate_t_sharings_prg, send_prg}

-- The number of rows of a block, and of the first, which has those that are left over.
abbrev pub block_rows : ℕ → ℕ → ℕ
block_rows n_players rows = rows / n_players

abbrev pub first_block_rows : ℕ → ℕ → ℕ
first_block_rows n_players rows = rows - block_rows n_players rows * (n_players - 1)

module _ (s : OctetStream) (c : ShareBase) where
  open s use {Octets, empty}
  open c use {n_players, threshold, my_num}

  unfoldable pub input_block_from_party_request :
      ℕ
      → ℕ
      → ℕ
      → (ℕ → ℕ → GfpScalar)
      → ShareBundle × List Octets
      → Proc Octets (ShareBundle × List Octets)
  unfolding calculate_block_sharings
  input_block_from_party_request player_no start_row n_rows random_coeffs state =
      let dealer = do
        calculated ← calculate_block_sharings s c state.0 start_row n_rows random_coeffs state.1
        send_from my_num 0 calculated.1
        ret calculated
      in if player_no == my_num then dealer else ret state

  unfoldable pub finish_input_block_from_party : ℕ → ℕ → ℕ → ShareBundle → Proc Octets ShareBundle
  unfolding unpack_block set_shares
  finish_input_block_from_party player_no start_row n_rows self =
      let receiver = do
        o ← receive_player player_no
        ret (set_shares (linear (unpack_block s (shaped self self.shares) start_row n_rows o)) self)
      in if player_no == my_num then ret self else receiver

  unfoldable pub request_blocks :
      (ℕ → ℕ → ℕ → GfpScalar)
      → ℕ
      → ℕ
      → ℕ
      → ℕ
      → ShareBundle × List Octets
      → Proc Octets (ShareBundle × List Octets)
  unfolding input_block_from_party_request
  request_blocks random_coeffs blk_rows zero i start_row state = ret state
  request_blocks random_coeffs blk_rows (suc rounds) i start_row state =
      input_block_from_party_request i start_row blk_rows (random_coeffs i) state
      >>= request_blocks random_coeffs blk_rows rounds (suc i) (start_row + blk_rows)

  unfoldable pub finish_blocks : ℕ → ℕ → ℕ → ℕ → ShareBundle → Proc Octets ShareBundle
  unfolding finish_input_block_from_party
  finish_blocks blk_rows zero i start_row self = ret self
  finish_blocks blk_rows (suc rounds) i start_row self =
      finish_input_block_from_party i start_row blk_rows self
      >>= finish_blocks blk_rows rounds (suc i) (start_row + blk_rows)

  unfoldable pub input_blocks_dispersed :
      ShareBundle → (ℕ → ℕ → ℕ → GfpScalar) → Proc Octets ShareBundle
  unfolding request_blocks finish_blocks
  input_blocks_dispersed self random_coeffs = do
    let blk_rows = block_rows n_players self.rows
    let first_blk_rows = first_block_rows n_players self.rows
    first ←
        input_block_from_party_request 0 0 first_blk_rows (random_coeffs 0)
          (self, replicate n_players empty)
    requested ← request_blocks random_coeffs blk_rows (n_players - 1) 1 first_blk_rows first
    self' ← finish_input_block_from_party 0 0 first_blk_rows requested.0
    finish_blocks blk_rows (n_players - 1) 1 first_blk_rows self'

  -- With the generator. The streams are those of `calculate_t_sharings_PRG` on the block.
  unfoldable pub calculate_block_t_sharings_prg :
      ShareBundle → ℕ → ℕ → (ℕ → ℕ → GfpScalar) → Proc Octets (ShareBundle × List Octets)
  unfolding calculate_t_sharings_prg write_block set_shares
  calculate_block_t_sharings_prg self start_row n_rows shares_prng = do
    check_block s c self start_row n_rows
    calculated ←
        calculate_t_sharings_prg s c self.degree (λ j. self.secrets (start_row * self.cols + j))
          (n_rows * self.cols) shares_prng (replicate (n_players - threshold) empty)
    ret (
      set_shares (write_block self.cols start_row n_rows calculated.0 self.shares) self,
      calculated.1,
    )

  unfoldable pub get_block_t_sharings_prg_wait :
      ℕ → ℕ → ℕ → (ℕ → ℕ → GfpScalar) → ShareBundle → Proc Octets ShareBundle
  unfolding has_prng_share write_block set_shares unpack_block
  get_block_t_sharings_prg_wait player_no start_row n_rows shares_prng self =
      let received = do
        o ← receive_player player_no
        ret (set_shares (linear (unpack_block s (shaped self self.shares) start_row n_rows o)) self)
      in let drawn = do
        check_block s c self start_row n_rows
        ret (
            set_shares
              (write_block self.cols start_row n_rows (shares_prng (my_num - 1)) self.shares) self)
        in if has_prng_share c self.degree then drawn else received

  unfoldable pub input_block_from_party_request_prg :
      ℕ → ℕ → ℕ → (ℕ → ℕ → GfpScalar) → ShareBundle → Proc Octets ShareBundle
  unfolding calculate_block_t_sharings_prg send_prg
  input_block_from_party_request_prg player_no start_row n_rows shares_prng self =
      let dealer = do
        calculated ← calculate_block_t_sharings_prg self start_row n_rows shares_prng
        send_prg s c calculated.1
        ret calculated.0
      in check (self.degree == threshold) >> (if player_no == my_num then dealer else ret self)

  unfoldable pub finish_input_block_from_party_prg :
      ℕ → ℕ → ℕ → (ℕ → ℕ → GfpScalar) → ShareBundle → Proc Octets ShareBundle
  unfolding get_block_t_sharings_prg_wait
  finish_input_block_from_party_prg player_no start_row n_rows shares_prng self =
      check (self.degree == threshold)
      >> (if player_no == my_num
          then ret self
          else get_block_t_sharings_prg_wait player_no start_row n_rows shares_prng self)

  unfoldable pub request_blocks_prg :
      (ℕ → ℕ → ℕ → GfpScalar) → ℕ → ℕ → ℕ → ℕ → ShareBundle → Proc Octets ShareBundle
  unfolding input_block_from_party_request_prg
  request_blocks_prg shares_prng blk_rows zero i start_row self = ret self
  request_blocks_prg shares_prng blk_rows (suc rounds) i start_row self =
      input_block_from_party_request_prg i start_row blk_rows (shares_prng i) self
      >>= request_blocks_prg shares_prng blk_rows rounds (suc i) (start_row + blk_rows)

  unfoldable pub finish_blocks_prg :
      (ℕ → ℕ → ℕ → GfpScalar) → ℕ → ℕ → ℕ → ℕ → ShareBundle → Proc Octets ShareBundle
  unfolding finish_input_block_from_party_prg
  finish_blocks_prg shares_prng blk_rows zero i start_row self = ret self
  finish_blocks_prg shares_prng blk_rows (suc rounds) i start_row self =
      finish_input_block_from_party_prg i start_row blk_rows (shares_prng i) self
      >>= finish_blocks_prg shares_prng blk_rows rounds (suc i) (start_row + blk_rows)

  unfoldable pub input_blocks_dispersed_prg :
      ShareBundle → (ℕ → ℕ → ℕ → GfpScalar) → Proc Octets ShareBundle
  unfolding request_blocks_prg finish_blocks_prg
  input_blocks_dispersed_prg self shares_prng = do
    let blk_rows = block_rows n_players self.rows
    let first_blk_rows = first_block_rows n_players self.rows
    first ← input_block_from_party_request_prg 0 0 first_blk_rows (shares_prng 0) self
    requested ← request_blocks_prg shares_prng blk_rows (n_players - 1) 1 first_blk_rows first
    self' ← finish_input_block_from_party_prg 0 0 first_blk_rows (shares_prng 0) requested
    finish_blocks_prg shares_prng blk_rows (n_players - 1) 1 first_blk_rows self'

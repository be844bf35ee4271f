-- ===== src/ShareBundle/Block.antt =====
-- Protocols/ShareBundle.cpp, class ShareBundle: the methods on blocks of rows, which disperse the
-- work of Pking over all the parties. A method of the multi-thread version is split in a request and
-- a wait: a message is sent at the request and received at the wait.
pub mod Partition
pub mod Streams
pub mod Collect
pub mod Reveal
use mathlib.Core.Option
use linux_copy.Common.{
  ℕ, zero, suc, ◌+◌, ◌-◌, ◌*◌, ◌/◌, ◌^◌, ◌==◌, ltb, leb, ◌&&◌, if◌then◌else◌, List, [], ◌∷◌, take,
  drop, tabulate, get_or, set, replicate, Option, none, some,
}
use linux_copy.Gfp.{GfpScalar, gfp}
use linux_copy.Stream.{OctetStream}
use linux_copy.Matrix.Pack.{pack_row, unpack_row, pack_rows, unpack_rows, unpack_block, pack_block}
use linux_copy.Network.{
  Proc, ret, ◌>>=◌, ◌>>◌, receive_player, or_abort, check, send_from, send_each,
}
use linux_copy.ShareBase.{ShareBase, is_in_reconstruction_set}
use linux_copy.Share.{selected_degree}
use linux_copy.ShareBundle.{
  ShareBundle, set_secrets, set_shares, stored, entry, shaped, linear, reconstructed, sharings_of,
}

-- The entries of a matrix with the block of `n_rows` rows from `start_row` on overwritten.
unfoldable pub write_block : ℕ → ℕ → ℕ → (ℕ → GfpScalar) → (ℕ → GfpScalar) → ℕ → GfpScalar
write_block cols start_row n_rows block old i =
    if leb (start_row * cols) i && ltb i ((start_row + n_rows) * cols)
    then block (i - start_row * cols)
    else old i

-- `partition_rows`, with the party's number and the number of parties: the first row and how many.
unfoldable pub partition_rows : ℕ → ℕ → ℕ → ℕ × ℕ
partition_rows n_players rows my_num =
    let n_rows = rows / n_players in
    let first_n_rows = rows - n_rows * (n_players - 1) in
    if my_num == 0 then (0, first_n_rows) else (first_n_rows + n_rows * (my_num - 1), n_rows)

module _ (s : OctetStream) (c : ShareBase) where
  open s use {Octets, empty}
  open c use {n_players, threshold, my_num}

  -- A block of rows that is not inside the matrix fails an assertion.
  abbrev pub check_block : ShareBundle → ℕ → ℕ → Proc Octets (Unit {0})
  check_block self start_row n_rows = check (leb (start_row + n_rows) self.rows)

  unfoldable pub calculate_block_secrets :
      ShareBundle → ℕ → ℕ → (ℕ → ℕ → GfpScalar) → List Octets → Proc Octets ShareBundle
  unfolding reconstructed selected_degree write_block set_secrets
  calculate_block_secrets self start_row n_rows fresh os = do
    sharings ← or_abort (unpack_row s (stored (self.degree + 1) (n_rows * self.cols) fresh) os)
    check (selected_degree s c self.degree == self.degree)
    check_block self start_row n_rows
    ret (
        set_secrets
          (write_block self.cols start_row n_rows (reconstructed s c self.degree (entry sharings))
            self.secrets)
          self)

  -- The bundle with the party's own shares of the block, and the streams of all the parties.
  unfoldable pub calculate_block_sharings :
      ShareBundle
      → ℕ
      → ℕ
      → (ℕ → ℕ → GfpScalar)
      → List Octets
      → Proc Octets (ShareBundle × List Octets)
  unfolding sharings_of selected_degree write_block set_shares
  calculate_block_sharings self start_row n_rows random_coeffs os = do
    let sharings =
        sharings_of (λ j. self.secrets (start_row * self.cols + j)) self.degree random_coeffs
    check (selected_degree s c self.degree == self.degree)
    check_block self start_row n_rows
    packed ← or_abort (pack_row s (stored n_players (n_rows * self.cols) sharings) os)
    ret (
      set_shares (write_block self.cols start_row n_rows (sharings my_num) self.shares) self,
      packed,
    )

  -- The streams that are to be sent, as they are left.
  unfoldable pub reveal_block_from_party_request :
      ShareBundle → ℕ → List Octets → Proc Octets (List Octets)
  unfolding pack_rows
  reveal_block_from_party_request self player_no os_send =
      let sender = do
        packed ← or_abort (pack_rows s (shaped self self.shares) os_send)
        send_from my_num 0 packed
        ret packed
      in if my_num == player_no then sender else ret os_send

  unfoldable pub finish_reveal_block_from_party : ℕ → Proc Octets Octets
  finish_reveal_block_from_party player_no =
      if my_num == player_no then ret empty else receive_player player_no

  -- The two loops of `reveal_blocks_dispersed`, from player `i` on.
  unfoldable pub request_reveals : ShareBundle → ℕ → ℕ → List Octets → Proc Octets (List Octets)
  unfolding reveal_block_from_party_request
  request_reveals self zero i os_send = ret os_send
  request_reveals self (suc rounds) i os_send =
      reveal_block_from_party_request self i os_send >>= λ os.
      request_reveals self rounds (suc i) os

  unfoldable pub finish_reveals : ℕ → ℕ → Proc Octets (List Octets)
  unfolding finish_reveal_block_from_party
  finish_reveals zero i = ret []
  finish_reveals (suc rounds) i =
      finish_reveal_block_from_party i >>= λ o. finish_reveals rounds (suc i) >>= λ os. ret (o ∷ os)

  -- The party's own block goes from the streams to send to the ones received. An index that is out
  -- of range fails an assertion.
  unfoldable pub with_own_block : ℕ → List Octets → List Octets → Option (List Octets)
  unfolding is_in_reconstruction_set
  with_own_block degree os_send os_receive =
      if is_in_reconstruction_set c degree
      then if ltb my_num (degree + 1)
        then some (set os_receive my_num (get_or os_send my_num empty))
        else none
      else some os_receive

  unfoldable pub reveal_blocks_dispersed :
      ShareBundle → (ℕ → ℕ → GfpScalar) → Proc Octets ShareBundle
  unfolding request_reveals finish_reveals with_own_block partition_rows calculate_block_secrets
  reveal_blocks_dispersed self fresh = do
    os_send ← request_reveals self (self.degree + 1) 0 (replicate n_players empty)
    received ← finish_reveals (self.degree + 1) 0
    os_receive ← or_abort (with_own_block self.degree os_send received)
    let block = partition_rows n_players self.rows my_num
    calculate_block_secrets self block.0 block.1 fresh os_receive

  -- The dispersed reveals: `update` is what the party does to its own block of secrets before they
  -- are sent, the identity in `reveal_dispersed`.
  unfoldable pub share_blocks : ShareBundle → (ShareBundle → ShareBundle) → Proc Octets ShareBundle
  unfolding pack_block unpack_rows finish_reveals partition_rows set_secrets
  share_blocks self update = do
    let block = partition_rows n_players self.rows my_num
    let updated = update self
    send_each my_num 0 n_players
        (pack_block s (shaped updated updated.secrets) block.0 block.1 empty)
    os_recev ← finish_reveals n_players 0
    unpacked ← or_abort (unpack_rows s (shaped updated updated.secrets) os_recev)
    ret (set_secrets (linear unpacked) updated)

  unfoldable pub reveal_dispersed : ShareBundle → (ℕ → ℕ → GfpScalar) → Proc Octets ShareBundle
  unfolding reveal_blocks_dispersed share_blocks
  reveal_dispersed self fresh =
      reveal_blocks_dispersed self fresh >>= λ self'. share_blocks self' (λ b. b)

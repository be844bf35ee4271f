-- ===== src/ShareBundle.antt =====
-- Protocols/ShareBundle.h and Protocols/ShareBundle.cpp, class ShareBundle: a matrix of sharings of
-- one degree. The matrices `secrets` and `shares` have the shape of the bundle; a matrix is read as
-- the function of its row-major index. What a method draws from a generator or reads from the input
-- file is an argument. `fresh` is what a new matrix holds before it is written.
pub mod Block
pub mod Prg
pub mod Reveal
pub mod Reduce
pub mod Mult
use mathlib.Core.Option
use linux_copy.Common.{
  ℕ, ◌+◌, ◌*◌, ◌/◌, ◌^◌, ◌==◌, ltb, not, ◌&&◌, if◌then◌else◌, List, tabulate, get_or, replicate,
  Option, none, some,
}
use linux_copy.Gfp.{GfpScalar, gfp}
use linux_copy.Poly.Sum.{dot}
use linux_copy.Stream.{OctetStream}
use linux_copy.Matrix.Pack.{GfpMatrix, pack_row, unpack_row, pack_matrix, unpack_matrix}
use linux_copy.Matrix.Table.{table}
use linux_copy.Network.{
  Proc, ret, ◌>>=◌, ◌>>◌, send_to, receive_player, or_abort, check, send_from, send_each,
}
use linux_copy.ShareBase.{ShareBase, is_in_reconstruction_set}
use linux_copy.Share.{sharing_of, selected_degree, reconstruction_vector, collect}

pub record ShareBundle : Type 0 where
  pub rows : ℕ
  pub cols : ℕ
  pub secrets : ℕ → GfpScalar
  pub degree : ℕ
  pub shares : ℕ → GfpScalar

unfoldable pub size : ShareBundle → ℕ
size self = self.rows * self.cols

-- The constructor with a shape, and `resize`: the degree is the threshold, the entries are zero.
unfoldable pub bundle_of_shape : ShareBase → ℕ → ℕ → ShareBundle
bundle_of_shape c rows cols = record {
  rows = rows;
  cols = cols;
  secrets = λ i. gfp 0;
  degree = c.threshold;
  shares = λ i. gfp 0;
}

unfoldable pub double_degree : ShareBundle → ShareBundle
double_degree self = record self { degree = self.degree * 2 ^ 1 }

abbrev pub halve_degree : ShareBundle → ShareBundle
halve_degree self = record self { degree = self.degree / 2 ^ 1 }

unfoldable pub set_secrets : (ℕ → GfpScalar) → ShareBundle → ShareBundle
set_secrets secrets self = record self { secrets = secrets }

unfoldable pub set_shares : (ℕ → GfpScalar) → ShareBundle → ShareBundle
set_shares shares self = record self { shares = shares }

-- A matrix with its storage.
abbrev pub stored : ℕ → ℕ → (ℕ → ℕ → GfpScalar) → GfpMatrix
stored rows cols f = record { rows = rows; cols = cols; entries = table rows cols f }

abbrev pub entry : GfpMatrix → ℕ → ℕ → GfpScalar
entry m i j = get_or m.entries (i * m.cols + j) (gfp 0)

-- A matrix of the shape of the bundle, with its storage.
abbrev pub shaped : ShareBundle → (ℕ → GfpScalar) → GfpMatrix
shaped self f = record {
  rows = self.rows;
  cols = self.cols;
  entries = tabulate (self.rows * self.cols) f;
}

abbrev pub linear : GfpMatrix → ℕ → GfpScalar
linear m i = get_or m.entries i (gfp 0)

-- `vandermonde * random_coeffs`, and the secret of each column added to it: row `i` holds the shares
-- of party `i`.
unfoldable pub sharings_of : (ℕ → GfpScalar) → ℕ → (ℕ → ℕ → GfpScalar) → ℕ → ℕ → GfpScalar
unfolding sharing_of
sharings_of secrets degree random_coeffs i j =
    sharing_of (secrets j) degree (λ k. random_coeffs k j) i

module _ (s : OctetStream) (c : ShareBase) where
  open s use {Octets, empty}
  open c use {n_players, threshold, pking, my_num}

  -- The party's own shares, and the streams of all parties.
  unfoldable pub calculate_sharings :
      (ℕ → GfpScalar)
      → ℕ
      → ℕ
      → (ℕ → ℕ → GfpScalar)
      → List Octets
      → Option ((ℕ → GfpScalar) × List Octets)
  unfolding sharings_of selected_degree
  calculate_sharings secrets n_secrets degree random_coeffs os =
      let sharings = sharings_of secrets degree random_coeffs in
      if selected_degree s c degree == degree
      then Option.map (λ packed. (sharings my_num, packed))
          (pack_row s (stored n_players n_secrets sharings) os)
      else none

  -- The rows of the matrix `sharings`: those that are in the streams, and the party's own.
  unfoldable pub collected_sharings :
      ℕ → ℕ → (ℕ → GfpScalar) → (ℕ → ℕ → GfpScalar) → List Octets → Option (ℕ → ℕ → GfpScalar)
  unfolding is_in_reconstruction_set
  collected_sharings degree n_secrets shares fresh os =
      elim (unpack_row s (stored (degree + 1) n_secrets fresh) os) [
        | none ↦ none
        | some m ↦
            if is_in_reconstruction_set c degree
            then if ltb my_num (degree + 1)
              then some (λ i j. if i == my_num then shares j else entry m i j)
              else none
            else some (entry m)
      ]

  -- `reconstruction.transpose() * sharings`.
  unfoldable pub reconstructed : ℕ → (ℕ → ℕ → GfpScalar) → ℕ → GfpScalar
  unfolding reconstruction_vector
  reconstructed degree sharings j =
      dot (degree + 1) (reconstruction_vector s c degree) (λ i. sharings i j)

  unfoldable pub calculate_secrets :
      ℕ → ℕ → (ℕ → GfpScalar) → (ℕ → ℕ → GfpScalar) → List Octets → Proc Octets (ℕ → GfpScalar)
  unfolding collected_sharings reconstructed selected_degree
  calculate_secrets degree n_secrets shares fresh os = do
    sharings ← or_abort (collected_sharings degree n_secrets shares fresh os)
    check (selected_degree s c degree == degree)
    ret (reconstructed degree sharings)

  unfoldable pub distribute_sharings : ShareBundle → (ℕ → ℕ → GfpScalar) → Proc Octets ShareBundle
  unfolding calculate_sharings size set_shares
  distribute_sharings self random_coeffs = do
    calculated ← or_abort (
        calculate_sharings self.secrets (size self) self.degree random_coeffs
          (replicate n_players empty))
    send_from my_num 0 calculated.1
    ret (set_shares calculated.0 self)

  -- The request to receive has no effect until the wait, where the message is taken.
  unfoldable pub reconstruct_secrets : ShareBundle → (ℕ → ℕ → GfpScalar) → Proc Octets ShareBundle
  unfolding calculate_secrets size set_secrets
  reconstruct_secrets self fresh = do
    os ← collect s c (self.degree + 1) 0
    secrets ← calculate_secrets self.degree (size self) self.shares fresh os
    ret (set_secrets secrets self)

  unfoldable pub send_shares : ShareBundle → ℕ → Proc Octets (Unit {0})
  unfolding pack_matrix
  send_shares self player_no = send_to player_no (pack_matrix s (shaped self self.shares) empty)

  unfoldable pub receive_shares : ShareBundle → ℕ → Proc Octets ShareBundle
  unfolding unpack_matrix set_shares
  receive_shares self player_no = do
    o ← receive_player player_no
    ret (set_shares (linear (unpack_matrix s (shaped self self.shares) o)) self)

  unfoldable pub send_secrets : ShareBundle → Proc Octets (Unit {0})
  unfolding pack_matrix
  send_secrets self = send_each my_num 0 n_players (pack_matrix s (shaped self self.secrets) empty)

  unfoldable pub receive_secrets : ShareBundle → ℕ → Proc Octets ShareBundle
  unfolding unpack_matrix set_secrets
  receive_secrets self player_no = do
    o ← receive_player player_no
    ret (set_secrets (linear (unpack_matrix s (shaped self self.secrets) o)) self)

  unfoldable pub reveal_to_party : ShareBundle → ℕ → (ℕ → ℕ → GfpScalar) → Proc Octets ShareBundle
  unfolding send_shares reconstruct_secrets is_in_reconstruction_set
  reveal_to_party self player_no fresh = do
    if not (my_num == player_no) && is_in_reconstruction_set c self.degree
        then send_shares self player_no
        else ret tt
    if my_num == player_no then reconstruct_secrets self fresh else ret self

  unfoldable pub reveal_to_pking : ShareBundle → (ℕ → ℕ → GfpScalar) → Proc Octets ShareBundle
  unfolding reveal_to_party
  reveal_to_pking self fresh = reveal_to_party self pking fresh

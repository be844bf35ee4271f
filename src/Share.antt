-- ===== src/Share.antt =====
-- Protocols/Share.h and Protocols/Share.cpp, class Share: one party's program for each method, over
-- the messages of Network and the streams of Stream. What a method draws from a generator or reads
-- from the input file is an argument.
pub mod Collect
pub mod Reveal
pub mod Prg
pub mod Input
pub mod Reduce
use linux_copy.Common.{
  ℕ, zero, suc, ◌+◌, ◌*◌, not, ◌==◌, ltb, ◌&&◌, ◌^◌, if◌then◌else◌, List, [], ◌∷◌, tabulate, get_or,
  replicate, set, Option, none, some,
}
use mathlib.Core.Option
use linux_copy.Gfp.{GfpScalar, gfp, ◌⊕◌}
use linux_copy.Poly.Sum.{dot}
use linux_copy.Stream.{OctetStream, pack, unpack}
use linux_copy.Matrix.Pack.{GfpMatrix, pack_row, unpack_row}
use linux_copy.Network.{
  Proc, ret, ◌>>=◌, ◌>>◌, send_to, receive_player, or_abort, check, send_from, send_each,
}
use linux_copy.ShareBase.{
  ShareBase, get_vandermonde, is_in_reconstruction_set, get_reconstruction_vector,
}

pub record Share : Type 0 where
  pub secret : GfpScalar
  pub degree : ℕ
  pub share : GfpScalar

-- A vector as a matrix of one column.
abbrev pub column : List GfpScalar → ℕ → GfpMatrix
column entries n = record { rows = n; cols = 1; entries = entries }

-- The vector `sharing` of `calculate_sharing`, from the coefficients that `random_matrix` drew.
unfoldable pub sharing_of : GfpScalar → ℕ → (ℕ → GfpScalar) → ℕ → GfpScalar
sharing_of secret degree random_coeffs i = dot degree (get_vandermonde i) random_coeffs ⊕ secret

module _ (s : OctetStream) (c : ShareBase) where
  open s use {Octets, empty, append, consume}
  open c use {n_players, threshold, pking, my_num}

  -- The degree of the matrix, or of the vector, that a method takes for sharings of `degree`.
  unfoldable pub selected_degree : ℕ → ℕ
  selected_degree degree = if degree == threshold then threshold else threshold * 2 ^ 1

  -- The party's own share, and the streams of all parties. `none` is a failed assertion: the
  -- matrix product asserts that the sizes agree.
  unfoldable pub calculate_sharing :
      GfpScalar → ℕ → (ℕ → GfpScalar) → List Octets → Option (GfpScalar × List Octets)
  unfolding sharing_of selected_degree
  calculate_sharing secret degree random_coeffs os =
      let sharing = sharing_of secret degree random_coeffs in
      if selected_degree degree == degree
      then Option.map (λ packed. (sharing my_num, packed))
          (pack_row s (column (tabulate n_players sharing) n_players) os)
      else none

  -- The party's own share is written into the vector of the shares. An index that is out of range
  -- fails an assertion.
  unfoldable pub with_own_share : ℕ → GfpScalar → List GfpScalar → Option (List GfpScalar)
  unfolding is_in_reconstruction_set
  with_own_share degree share sharing =
      if is_in_reconstruction_set c degree
      then (if ltb my_num (degree + 1) then some (set sharing my_num share) else none)
      else some sharing

  -- The vector of the shares: those that are in the streams, and the party's own. `fresh` is what
  -- the new vector holds before it is written.
  unfoldable pub collected_sharing :
      ℕ → GfpScalar → (ℕ → GfpScalar) → List Octets → Option (List GfpScalar)
  unfolding with_own_share
  collected_sharing degree share fresh os =
      elim (unpack_row s (column (tabulate (degree + 1) fresh) (degree + 1)) os) [
        | none ↦ none
        | some sharing ↦ with_own_share degree share sharing.entries
      ]

  -- `reconstruction_vector_t` or `reconstruction_vector_2t`.
  unfoldable pub reconstruction_vector : ℕ → ℕ → GfpScalar
  unfolding selected_degree
  reconstruction_vector degree = get_reconstruction_vector c (gfp 0) (selected_degree degree)

  unfoldable pub calculate_secret :
      ℕ → GfpScalar → (ℕ → GfpScalar) → List Octets → Proc Octets GfpScalar
  unfolding collected_sharing reconstruction_vector selected_degree
  calculate_secret degree share fresh os = do
    sharing ← or_abort (collected_sharing degree share fresh os)
    check (selected_degree degree == degree)
    ret (dot (degree + 1) (reconstruction_vector degree) (λ i. get_or sharing i (gfp 0)))

  -- `P->send_respective(os)` after `calculate_sharing`.
  unfoldable pub distribute_sharing : Share → (ℕ → GfpScalar) → Proc Octets Share
  unfolding calculate_sharing send_from
  distribute_sharing self random_coeffs = do
    calculated ←
        or_abort
          (calculate_sharing self.secret self.degree random_coeffs (replicate n_players empty))
    send_from my_num 0 calculated.1
    ret (record self { share = calculated.0 })

  -- The loop of `reconstruct_secret` from `player_no` on.
  unfoldable pub collect : ℕ → ℕ → Proc Octets (List Octets)
  collect zero player_no = ret []
  collect (suc rounds) player_no =
      let own = collect rounds (suc player_no) >>= λ os. ret (empty ∷ os) in
      let other = do o ← receive_player player_no; os ← collect rounds (suc player_no); ret (o ∷ os)
      in if my_num == player_no then own else other

  unfoldable pub reconstruct_secret : Share → (ℕ → GfpScalar) → Proc Octets Share
  unfolding collect calculate_secret
  reconstruct_secret self fresh = do
    os ← collect (self.degree + 1) 0
    secret ← calculate_secret self.degree self.share fresh os
    ret (record self { secret = secret })

  unfoldable pub send_share : Share → ℕ → Proc Octets (Unit {0})
  unfolding pack
  send_share self player_no = send_to player_no (pack s self.share)

  unfoldable pub receive_share : Share → ℕ → Proc Octets Share
  unfolding unpack
  receive_share self player_no = do
    o ← receive_player player_no
    ret (record self { share = unpack s o })

  -- The input methods, which differ in where the secret comes from.
  unfoldable pub input_from_party : Share → ℕ → (ℕ → GfpScalar) → Proc Octets Share
  unfolding distribute_sharing receive_share
  input_from_party self player_no random_coeffs =
      if player_no == my_num
      then distribute_sharing self random_coeffs
      else receive_share self player_no

  unfoldable pub input_from_file : Share → ℕ → GfpScalar → (ℕ → GfpScalar) → Proc Octets Share
  unfolding distribute_sharing receive_share
  input_from_file self player_no read random_coeffs =
      if player_no == my_num
      then distribute_sharing (record self { secret = read }) random_coeffs
      else receive_share self player_no

  unfoldable pub input_from_pking : Share → (ℕ → GfpScalar) → Proc Octets Share
  unfolding input_from_party
  input_from_pking self random_coeffs = input_from_party self pking random_coeffs

  unfoldable pub input_from_random : Share → ℕ → GfpScalar → (ℕ → GfpScalar) → Proc Octets Share
  unfolding distribute_sharing receive_share
  input_from_random self player_no drawn random_coeffs =
      if player_no == my_num
      then distribute_sharing (record self { secret = drawn }) random_coeffs
      else receive_share self player_no

  unfoldable pub reveal_to_party : Share → ℕ → (ℕ → GfpScalar) → Proc Octets Share
  unfolding send_share reconstruct_secret is_in_reconstruction_set
  reveal_to_party self player_no fresh = do
    if not (my_num == player_no) && is_in_reconstruction_set c self.degree
        then send_share self player_no
        else ret tt
    if my_num == player_no then reconstruct_secret self fresh else ret self

  unfoldable pub reveal_to_pking : Share → (ℕ → GfpScalar) → Proc Octets Share
  unfolding reveal_to_party
  reveal_to_pking self fresh = reveal_to_party self pking fresh

  -- What Pking sends to the others, or what they receive.
  unfoldable pub share_secret : Share → Proc Octets Share
  unfolding pack unpack send_each
  share_secret self =
      let king = do send_each my_num 0 n_players (pack s self.secret); ret self
      in let other = do o ← receive_player pking; ret (record self { secret = unpack s o })
        in if my_num == pking then king else other

  unfoldable pub reveal : Share → (ℕ → GfpScalar) → Proc Octets Share
  unfolding reveal_to_pking share_secret
  reveal self fresh = do self' ← reveal_to_pking self fresh; share_secret self'

-- `random`, which returns before it takes a sharing from the queue.
unfoldable pub random : Share → Share
random self = record self { share = gfp 0 }

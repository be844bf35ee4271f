-- ===== src/ShareBundle/Prg/Input.antt =====
-- Protocols/ShareBundle.cpp, class ShareBundle: the input methods, and those with the generator that
-- the parties have agreed on. In the multi-thread version a method is split in a request, where the
-- dealer sends, and a wait, where the others receive. The versions with the static buffers, which
-- they clear first, are the versions below on empty streams.
use linux_copy.Common.{ℕ, ◌-◌, ◌==◌, if◌then◌else◌, List, replicate}
use linux_copy.Gfp.{GfpScalar}
use linux_copy.Stream.{OctetStream}
use linux_copy.Matrix.Pack.{unpack_matrix}
use linux_copy.Network.{Proc, ret, ◌>>=◌, ◌>>◌, receive_player, or_abort, check, send_from}
use linux_copy.ShareBase.{ShareBase}
use linux_copy.ShareBundle.{
  ShareBundle, size, set_shares, set_secrets, shaped, linear, calculate_sharings,
  distribute_sharings, receive_shares,
}
use linux_copy.ShareBundle.Prg.{
  calculate_t_sharings_prg, send_prg, distribute_sharings_prg, get_sharings_prg,
  get_t_sharings_prg_wait,
}

module _ (s : OctetStream) (c : ShareBase) where
  open s use {Octets, empty}
  open c use {n_players, threshold, pking, my_num}

  unfoldable pub input_from_party : ShareBundle → ℕ → (ℕ → ℕ → GfpScalar) → Proc Octets ShareBundle
  unfolding distribute_sharings receive_shares
  input_from_party self player_no random_coeffs =
      if player_no == my_num
      then distribute_sharings s c self random_coeffs
      else receive_shares s c self player_no

  -- `input_from_file` and `input_from_random`, which differ in where the dealer's secrets are from.
  unfoldable pub input_from_secrets :
      ShareBundle → ℕ → (ℕ → GfpScalar) → (ℕ → ℕ → GfpScalar) → Proc Octets ShareBundle
  unfolding input_from_party set_secrets
  input_from_secrets self player_no drawn random_coeffs =
      input_from_party (if player_no == my_num then set_secrets drawn self else self) player_no
        random_coeffs

  unfoldable pub input_from_pking : ShareBundle → (ℕ → ℕ → GfpScalar) → Proc Octets ShareBundle
  unfolding input_from_party
  input_from_pking self random_coeffs = input_from_party self pking random_coeffs

  -- The bundle and the streams to send, to which the rows are appended.
  unfoldable pub input_from_party_request :
      ShareBundle → ℕ → (ℕ → ℕ → GfpScalar) → List Octets → Proc Octets (ShareBundle × List Octets)
  unfolding calculate_sharings size set_shares
  input_from_party_request self player_no random_coeffs os_send =
      let dealer = do
        calculated ←
            or_abort
              (calculate_sharings s c self.secrets (size self) self.degree random_coeffs os_send)
        send_from my_num 0 calculated.1
        ret (set_shares calculated.0 self, calculated.1)
      in if player_no == my_num then dealer else ret (self, os_send)

  unfoldable pub input_from_secrets_request :
      ShareBundle
      → ℕ
      → (ℕ → GfpScalar)
      → (ℕ → ℕ → GfpScalar)
      → List Octets
      → Proc Octets (ShareBundle × List Octets)
  unfolding input_from_party_request set_secrets
  input_from_secrets_request self player_no drawn random_coeffs os_send =
      input_from_party_request (if player_no == my_num then set_secrets drawn self else self)
        player_no random_coeffs os_send

  unfoldable pub input_from_pking_request :
      ShareBundle → (ℕ → ℕ → GfpScalar) → Proc Octets (ShareBundle × List Octets)
  unfolding input_from_party_request
  input_from_pking_request self random_coeffs =
      input_from_party_request self pking random_coeffs (replicate n_players empty)

  unfoldable pub finish_input_from : ShareBundle → ℕ → Proc Octets ShareBundle
  unfolding unpack_matrix set_shares
  finish_input_from self player_no =
      let receiver = do
        o ← receive_player player_no
        ret (set_shares (linear (unpack_matrix s (shaped self self.shares) o)) self)
      in if player_no == my_num then ret self else receiver

  unfoldable pub finish_input_from_pking : ShareBundle → Proc Octets ShareBundle
  unfolding finish_input_from
  finish_input_from_pking self = finish_input_from self pking

  unfoldable pub input_from_party_prg :
      ShareBundle → ℕ → (ℕ → ℕ → GfpScalar) → Proc Octets ShareBundle
  unfolding distribute_sharings_prg get_sharings_prg set_shares
  input_from_party_prg self player_no shares_prng = do
    shares ←
        if player_no == my_num
        then distribute_sharings_prg s c self shares_prng
        else get_sharings_prg s c self player_no shares_prng
    ret (set_shares shares self)

  unfoldable pub input_from_random_prg :
      ShareBundle → ℕ → (ℕ → GfpScalar) → (ℕ → ℕ → GfpScalar) → Proc Octets ShareBundle
  unfolding input_from_party_prg set_secrets
  input_from_random_prg self player_no drawn shares_prng =
      input_from_party_prg (if player_no == my_num then set_secrets drawn self else self) player_no
        shares_prng

  unfoldable pub input_from_party_request_prg :
      ShareBundle → ℕ → (ℕ → ℕ → GfpScalar) → Proc Octets ShareBundle
  unfolding calculate_t_sharings_prg send_prg size set_shares
  input_from_party_request_prg self player_no shares_prng =
      let dealer = do
        calculated ←
            calculate_t_sharings_prg s c self.degree self.secrets (size self) shares_prng
              (replicate (n_players - threshold) empty)
        send_prg s c calculated.1
        ret (set_shares calculated.0 self)
      in check (self.degree == threshold) >> (if player_no == my_num then dealer else ret self)

  unfoldable pub input_from_random_request_prg :
      ShareBundle → ℕ → (ℕ → GfpScalar) → (ℕ → ℕ → GfpScalar) → Proc Octets ShareBundle
  unfolding input_from_party_request_prg set_secrets
  input_from_random_request_prg self player_no drawn shares_prng =
      input_from_party_request_prg (if player_no == my_num then set_secrets drawn self else self)
        player_no shares_prng

  unfoldable pub finish_input_from_prg :
      ShareBundle → ℕ → (ℕ → ℕ → GfpScalar) → Proc Octets ShareBundle
  unfolding get_t_sharings_prg_wait
  finish_input_from_prg self player_no shares_prng =
      check (self.degree == threshold)
      >> (if player_no == my_num
          then ret self
          else get_t_sharings_prg_wait s c self player_no shares_prng)

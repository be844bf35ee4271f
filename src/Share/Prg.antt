-- ===== src/Share/Prg.antt =====
-- Protocols/Share.cpp, class Share: the methods that draw shares from the generator that the parties
-- have agreed on. What the generator yields is the argument `shares_prng`, the same for all parties.
pub mod Laws
use linux_copy.Common.{
  ℕ, zero, suc, ◌+◌, ◌-◌, ◌*◌, ◌==◌, ltb, leb, ◌&&◌, if◌then◌else◌, List, [], ◌∷◌, tabulate, get_or,
  replicate, Option, none, some, ◌^◌, Bool,
}
use linux_copy.Gfp.{GfpScalar, gfp}
use linux_copy.Poly.Sum.{dot}
use linux_copy.Stream.{OctetStream, pack, unpack}
use linux_copy.Matrix.Pack.{pack_row}
use linux_copy.Network.{Proc, ret, ◌>>=◌, ◌>>◌, receive_player, or_abort, check, send_window}
use linux_copy.ShareBase.{ShareBase, get_reconstruction_vector_with_secret}
use linux_copy.Share.{Share, column}

-- The vector `material`: the secret, then the shares.
unfoldable pub material : GfpScalar → (ℕ → GfpScalar) → ℕ → GfpScalar
material secret shares_prng zero = secret
material secret shares_prng (suc k) = shares_prng k

module _ (c : ShareBase) where
  open c use {n_players, threshold, my_num}

  -- The rows of the two matrices of `init_reconstruction_vectors`.
  unfoldable pub reconstruction_with_secret_2t : ℕ → List GfpScalar
  reconstruction_with_secret_2t i =
      get_reconstruction_vector_with_secret (i + 1) (gfp (i + 1)) (threshold * 2 ^ 1)

  unfoldable pub reconstruction_with_secret_t : ℕ → List GfpScalar
  reconstruction_with_secret_t i =
      if ltb i (n_players - threshold - 1)
      then get_reconstruction_vector_with_secret 1 (gfp (i + (threshold + 2))) threshold
      else get_reconstruction_vector_with_secret 1 (gfp 1) threshold

  unfoldable pub distribute_2t_sharing_prg : GfpScalar → (ℕ → GfpScalar) → GfpScalar
  unfolding reconstruction_with_secret_2t material
  distribute_2t_sharing_prg secret shares_prng =
      dot (threshold * 2 ^ 1 + 1) (λ k. get_or (reconstruction_with_secret_2t my_num) k (gfp 0))
        (material secret shares_prng)

  unfoldable pub get_2t_sharing_prg : ℕ → (ℕ → GfpScalar) → GfpScalar
  get_2t_sharing_prg player_no shares_prng =
      if ltb player_no my_num then shares_prng (my_num - 1) else shares_prng my_num

  -- The vector `sharing` of `distribute_t_sharint_PRG`.
  unfoldable pub t_sharing : ℕ → GfpScalar → (ℕ → GfpScalar) → ℕ → GfpScalar
  unfolding reconstruction_with_secret_t material
  t_sharing degree secret shares_prng i =
      dot (degree + 1) (λ k. get_or (reconstruction_with_secret_t i) k (gfp 0))
        (material secret shares_prng)

  -- Whether the party's share is one of those from the generator.
  unfoldable pub has_prng_share : ℕ → Bool
  has_prng_share degree = leb 1 my_num && leb my_num degree

  unfoldable pub own_t_share : ℕ → GfpScalar → (ℕ → GfpScalar) → GfpScalar
  unfolding t_sharing has_prng_share
  own_t_share degree secret shares_prng =
      if has_prng_share degree
      then shares_prng (my_num - 1)
      else if my_num == 0
      then t_sharing degree secret shares_prng degree
      else t_sharing degree secret shares_prng (my_num - degree - 1)

module _ (s : OctetStream) (c : ShareBase) where
  open s use {Octets, empty}
  open c use {n_players, threshold, my_num, positive_modulo}

  unfoldable pub distribute_t_sharint_prg : ℕ → GfpScalar → (ℕ → GfpScalar) → Proc Octets GfpScalar
  unfolding own_t_share
  distribute_t_sharint_prg degree secret shares_prng = do
    check (degree == threshold)
    os ← or_abort (
        pack_row s
          (column (tabulate (n_players - threshold) (t_sharing c degree secret shares_prng))
            (n_players - threshold))
          (replicate (degree + 1) empty))
    send_window my_num (λ i. positive_modulo i n_players) (degree + 1) os
    ret (own_t_share c degree secret shares_prng)

  unfoldable pub get_t_sharing_prg : ℕ → ℕ → (ℕ → GfpScalar) → Proc Octets GfpScalar
  unfolding has_prng_share
  get_t_sharing_prg degree player_no shares_prng =
      let received = do o ← receive_player player_no; ret (unpack s o)
      in if has_prng_share c degree then ret (shares_prng (my_num - 1)) else received

  unfoldable pub distribute_sharing_prg : ℕ → GfpScalar → (ℕ → GfpScalar) → Proc Octets GfpScalar
  unfolding distribute_t_sharint_prg distribute_2t_sharing_prg
  distribute_sharing_prg degree secret shares_prng =
      if degree == threshold
      then distribute_t_sharint_prg degree secret shares_prng
      else ret (distribute_2t_sharing_prg c secret shares_prng)

  unfoldable pub get_sharing_prg : ℕ → ℕ → (ℕ → GfpScalar) → Proc Octets GfpScalar
  unfolding get_t_sharing_prg get_2t_sharing_prg
  get_sharing_prg degree player_no shares_prng =
      if degree == threshold
      then get_t_sharing_prg degree player_no shares_prng
      else ret (get_2t_sharing_prg c player_no shares_prng)

  unfoldable pub input_from_party_prg : Share → ℕ → (ℕ → GfpScalar) → Proc Octets Share
  unfolding distribute_sharing_prg get_sharing_prg
  input_from_party_prg self player_no shares_prng = do
    share ←
        if player_no == my_num
        then distribute_sharing_prg self.degree self.secret shares_prng
        else get_sharing_prg self.degree player_no shares_prng
    ret (record self { share = share })

  unfoldable pub input_from_random_prg : Share → ℕ → GfpScalar → (ℕ → GfpScalar) → Proc Octets Share
  unfolding input_from_party_prg
  input_from_random_prg self player_no drawn shares_prng =
      input_from_party_prg (if player_no == my_num then record self { secret = drawn } else self)
        player_no shares_prng

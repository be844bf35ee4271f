-- ===== src/ShareBase.antt =====
-- Protocols/Share.h and Protocols/Share.cpp, class ShareBase: the parameters that all sharings
-- have in common, the Vandermonde matrices and the Lagrange reconstruction vectors. A `gfpVector`
-- or `gfpMatrix` is read as the function of its indices.
pub mod Vandermonde
pub mod Reconstruct
pub mod WithSecret
use linux_copy.Common.{
  ℕ, zero, suc, ◌+◌, ◌-◌, ◌*◌, ◌<◌, ◌≤◌, ◌≡◌, Bool, true, false, ◌==◌, leb, if◌then◌else◌, List, [],
  ◌∷◌,
}
use linux_copy.Gfp.{GfpScalar, gfp, ◌⊕◌, ◌⊖◌, ◌⊗◌, ◌⊘◌, same}

-- The static members. `my_num` and `get_relative` are those of the ThreadPlayer `P` (Networking/,
-- not in the repository), `get_relative` with its player's number first; `positive_modulo` is a
-- function of Tools/ (not in the repository).
pub record ShareBase : Type 0 where
  pub n_players : ℕ
  pub threshold : ℕ
  pub pking : ℕ
  pub my_num : ℕ
  pub get_relative : ℕ → ℕ → ℕ
  pub positive_modulo : ℕ → ℕ → ℕ

-- The inner loop of `get_vandermonde`: the entry in column `j`, from the product so far.
unfoldable pub vandermonde_row : GfpScalar → GfpScalar → ℕ → GfpScalar
vandermonde_row prod x zero = prod ⊗ x
vandermonde_row prod x (suc j) = vandermonde_row (prod ⊗ x) x j

unfoldable pub get_vandermonde : ℕ → ℕ → GfpScalar
unfolding vandermonde_row
get_vandermonde i j = vandermonde_row (gfp 1) (gfp (i + 1)) j

module _ (c : ShareBase) where
  open c use {n_players, pking, my_num, positive_modulo, get_relative}

  unfoldable pub is_in_reconstruction_set : ℕ → Bool
  is_in_reconstruction_set degree = leb (get_relative my_num pking) degree

  -- The loop of `get_reconstruction_factor`, with the rounds that are left.
  unfoldable pub factor_loop : GfpScalar → ℕ → ℕ → ℕ → GfpScalar → GfpScalar
  factor_loop point player_i zero offset factor = factor
  factor_loop point player_i (suc rounds) offset factor =
      let player_j = positive_modulo (pking + offset) n_players in
      let gfp_j = gfp (player_j + 1) in
      let gfp_i = gfp (player_i + 1) in
      factor_loop point player_i rounds (offset + 1)
        (if player_i == player_j then factor else factor ⊗ ((gfp_j ⊖ point) ⊘ (gfp_j ⊖ gfp_i)))

  unfoldable pub get_reconstruction_factor : GfpScalar → ℕ → ℕ → GfpScalar
  unfolding factor_loop
  get_reconstruction_factor point player_i degree =
      factor_loop point player_i (degree + 1) 0 (gfp 1)

  -- `reconstruction(i)`, for `i` up to `degree`.
  unfoldable pub get_reconstruction_vector : GfpScalar → ℕ → ℕ → GfpScalar
  unfolding get_reconstruction_factor
  get_reconstruction_vector point degree i =
      get_reconstruction_factor point (positive_modulo (pking + i) n_players) degree

-- The loop of `get_reconstruction_factor_with_secret`.
unfoldable pub secret_factor_loop : ℕ → GfpScalar → ℕ → ℕ → ℕ → GfpScalar → GfpScalar
secret_factor_loop except_player point player_i zero offset factor = factor
secret_factor_loop except_player point player_i (suc rounds) offset factor =
    let gfp_j = gfp offset in
    let gfp_i = gfp player_i in
    secret_factor_loop except_player point player_i rounds (offset + 1) (
      if offset == except_player
      then factor
      else if same gfp_i gfp_j
      then factor
      else factor ⊗ ((gfp_j ⊖ point) ⊘ (gfp_j ⊖ gfp_i)))

unfoldable pub get_reconstruction_factor_with_secret : ℕ → GfpScalar → ℕ → ℕ → GfpScalar
unfolding secret_factor_loop
get_reconstruction_factor_with_secret except_player point player_i degree =
    secret_factor_loop except_player point player_i (degree + 1 + 1) 0 (gfp 1)

-- The entries from player `i` on, in the order of `idx`.
unfoldable pub secret_vector_loop : ℕ → GfpScalar → ℕ → ℕ → ℕ → List GfpScalar
secret_vector_loop except_player point degree zero i = []
secret_vector_loop except_player point degree (suc rounds) i =
    let rest = secret_vector_loop except_player point degree rounds (i + 1) in
    if i == except_player
    then rest
    else get_reconstruction_factor_with_secret except_player point i degree ∷ rest

unfoldable pub get_reconstruction_vector_with_secret : ℕ → GfpScalar → ℕ → List GfpScalar
unfolding secret_vector_loop
get_reconstruction_vector_with_secret except_player point degree =
    secret_vector_loop except_player point degree (degree + 1 + 1) 0

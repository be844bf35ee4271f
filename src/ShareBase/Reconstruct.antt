-- ===== src/ShareBase/Reconstruct.antt =====
-- The reconstruction vector of `get_reconstruction_vector` is that of Lagrange's interpolation at
-- the points of the players in the reconstruction set.
use native.Mathlib.Nat.{mod-lt, mod-eq_of_lt, mod-eq-sub-mod, mod-add-mod}
use linux_copy.Common.{
  ℕ, zero, suc, ◌+◌, ◌-◌, ◌%◌, ◌<◌, ◌≤◌, ◌≡◌, ap, ap₂, ◌∙◌, sym, arith, ◌==◌, ==_ne, ==_iff, inl,
  inr, fun_ext, ◌⊎◌, dec_lt, ℕ_discrete, if◌then◌else◌,
}
use linux_copy.Scalar.{pr}
use linux_copy.Gfp.{GfpScalar, gfp, ◌⊖◌, ◌⊗◌, ◌⊘◌}
use linux_copy.Gfp.Ring.{⊗_assoc, one-⊗, ⊗-one}
use linux_copy.Gfp.Inverse.{gfp-injective}
use linux_copy.Poly.Sum.{prod, dot, sum_congr}
use linux_copy.Poly.Eval.{IsPoly}
use linux_copy.Poly.Lagrange.{Distinct, basis, basis_factor, interpolate_exact}
use linux_copy.ShareBase.{ShareBase, factor_loop, get_reconstruction_vector}

-- What the protocols rely on: `positive_modulo` is the remainder, and the players' points are
-- distinct residues.
pub record IsValid (c : ShareBase) : Type 0 where
  pub modulo : (a : ℕ) → c.positive_modulo a c.n_players ≡ a % c.n_players
  pub some_player : 0 < c.n_players
  pub few_players : c.n_players + 1 < pr

-- The player at place `k` of the reconstruction set, and its point.
abbrev pub player_at : ShareBase → ℕ → ℕ
player_at c k = c.positive_modulo (c.pking + k) c.n_players

abbrev pub point_at : ShareBase → ℕ → GfpScalar
point_at c k = gfp (player_at c k + 1)

wrap_once : (r i n : ℕ) → r < n → i < n → ((r + i) % n ≡ r + i) ⊎ ((r + i) % n + n ≡ r + i)
wrap_once r i n hr hi = elim (dec_lt (r + i) n) [
  | yes h ↦ inl (mod-eq_of_lt h)
  | no h ↦ inr (
      omega (
        arith,
        mod-eq-sub-mod {n = r + i} {m = n} (omega arith),
        mod-eq_of_lt {n = r + i - n} {m = n} (omega arith),
      ))
]

pub rotation_injective : (p i j n : ℕ) → i < n → j < n → (p + i) % n ≡ (p + j) % n → i ≡ j
rotation_injective p i j n hi hj e = omega (
  arith,
  wrap_once (p % n) i n (mod-lt p (omega arith)) hi,
  wrap_once (p % n) j n (mod-lt p (omega arith)) hj,
  mod-add-mod p n i,
  mod-add-mod p n j,
)

accumulated :
    (n : ℕ) (f : ℕ → GfpScalar) (acc : GfpScalar)
    → acc ⊗ prod (suc n) f ≡ (acc ⊗ f 0) ⊗ prod n (λ k. f (suc k))
unfolding prod
accumulated n f acc = sym (⊗_assoc acc (f 0) _)

module _ (c : ShareBase) (v : IsValid c) where
  pub player_lt : (k : ℕ) → player_at c k < c.n_players
  player_lt k = omega (arith, v.modulo (c.pking + k), mod-lt (c.pking + k) v.some_player)

  pub player_injective :
      (i j : ℕ) → i < c.n_players → j < c.n_players → player_at c i ≡ player_at c j → i ≡ j
  player_injective i j hi hj e =
      rotation_injective c.pking i j c.n_players hi hj
        (sym (v.modulo (c.pking + i)) ∙ e ∙ v.modulo (c.pking + j))

  pub point_at-Distinct : (n : ℕ) → n ≤ c.n_players → Distinct n (point_at c)
  point_at-Distinct n h i j hi hj ne e = ne (
      player_injective i j (omega arith) (omega arith) (
        omega (
          arith,
          gfp-injective (player_at c i + 1) (player_at c j + 1)
              (omega (arith, player_lt i, v.few_players))
              (omega (arith, player_lt j, v.few_players)) e,
        )))

  -- A round of the loop skips the player itself, as the basis polynomial does.
  round :
      (point factor : GfpScalar) (i k : ℕ)
      → i < c.n_players
      → k < c.n_players
      → (if player_at c i == player_at c k
          then factor
          else factor ⊗ ((point_at c k ⊖ point) ⊘ (point_at c k ⊖ point_at c i)))
        ≡ factor ⊗ basis_factor (point_at c) i point k
  round point factor i k hi hk = elim (ℕ_discrete k i) [
    | yes e ↦
        rw ((==_iff k i).1 e, (==_iff (player_at c i) (player_at c k)).1 (ap (player_at c) (sym e)))
          (sym (⊗-one factor))
    | no ne ↦ rw (
      ==_ne k i ne,
      ==_ne (player_at c i) (player_at c k) (λ e. ne (sym (player_injective i k hi hk e))),
    )
  ]

  factor_loop-prod :
      (point : GfpScalar) (i rounds offset : ℕ) (factor : GfpScalar)
      → i < c.n_players
      → offset + rounds ≤ c.n_players
      → factor_loop c point (player_at c i) rounds offset factor
        ≡ factor ⊗ prod rounds (λ k. basis_factor (point_at c) i point (offset + k))
  unfolding factor_loop
  factor_loop-prod point i zero offset factor hi h = unfold prod in sym (⊗-one factor)
  factor_loop-prod point i (suc rounds) offset factor hi h =
      factor_loop-prod point i rounds (offset + 1) _ hi (omega arith)
      ∙ ap₂ ◌⊗◌
          (round point factor i offset hi (omega arith)
            ∙ ap (λ (k : ℕ). factor ⊗ basis_factor (point_at c) i point k) (omega arith))
          (ap (prod rounds) (
            fun_ext (λ k.
              ap (basis_factor (point_at c) i point) {x = offset + 1 + k} {y = offset + suc k}
                (omega arith))))
      ∙ sym (accumulated rounds (λ k. basis_factor (point_at c) i point (offset + k)) factor)

  pub get_reconstruction_vector-basis :
      (point : GfpScalar) (degree i : ℕ)
      → degree < c.n_players
      → i ≤ degree
      → get_reconstruction_vector c point degree i ≡ basis (suc degree) (point_at c) i point
  unfolding get_reconstruction_vector basis
  get_reconstruction_vector-basis point degree i hd hi =
      factor_loop-prod point i (degree + 1) 0 (gfp 1) (omega arith) (omega arith)
      ∙ one-⊗ _
      ∙ ap₂ prod {x = degree + 1} {y = suc degree} (omega arith)
          (fun_ext (λ k. ap (basis_factor (point_at c) i point) (omega arith)))

  -- The dot product of the reconstruction vector with the values of a polynomial of the degree at
  -- the points of the reconstruction set is the value of the polynomial at `point`.
  pub get_reconstruction_vector-eval :
      (g : GfpScalar → GfpScalar) (degree : ℕ) (point : GfpScalar)
      → degree < c.n_players
      → IsPoly (suc degree) g
      → dot (suc degree) (get_reconstruction_vector c point degree) (λ i. g (point_at c i))
        ≡ g point
  unfolding dot
  get_reconstruction_vector-eval g degree point hd hg =
      sum_congr (suc degree) _ _ (λ i hi.
        ap (λ (s : GfpScalar). s ⊗ g (point_at c i))
          (get_reconstruction_vector-basis point degree i hd (omega arith)))
      ∙ interpolate_exact (suc degree) (point_at c) g (point_at-Distinct (suc degree) (omega arith))
          hg point

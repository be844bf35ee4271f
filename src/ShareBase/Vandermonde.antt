-- ===== src/ShareBase/Vandermonde.antt =====
-- The Vandermonde matrix evaluates a polynomial without its constant term at the players' points.
use linux_copy.Common.{ℕ, zero, suc, ◌+◌, ◌≡◌, refl, ap, ap₂, ◌∙◌, sym}
use linux_copy.Gfp.{GfpScalar, gfp, ◌⊕◌, ◌⊗◌}
use linux_copy.Gfp.Ring.{⊗_assoc, one-⊗, ⊕_comm, ⊗-one, ⊗-zero, ⊗-⊕}
use linux_copy.Gfp.Power.{power}
use linux_copy.Poly.Sum.{sum, dot, sum_congr, ⊗-sum}
use linux_copy.Poly.Eval.{eval}
use linux_copy.ShareBase.{get_vandermonde, vandermonde_row}

vandermonde_row-power :
    (prod x : GfpScalar) (j : ℕ) → vandermonde_row prod x j ≡ prod ⊗ power x (suc j)
unfolding vandermonde_row power
vandermonde_row-power prod x zero = ap (◌⊗◌ prod) (sym (⊗-one x))
vandermonde_row-power prod x (suc j) = vandermonde_row-power (prod ⊗ x) x j ∙ ⊗_assoc prod x _

-- The entry in row `i` and column `j` is `(i + 1) ^ (j + 1)`.
pub get_vandermonde-power : (i j : ℕ) → get_vandermonde i j ≡ power (gfp (i + 1)) (suc j)
unfolding get_vandermonde
get_vandermonde-power i j = vandermonde_row-power (gfp 1) (gfp (i + 1)) j ∙ one-⊗ _

-- The coefficients of a sharing: the secret, then the random ones.
unfoldable pub coefficients : GfpScalar → (ℕ → GfpScalar) → ℕ → GfpScalar
coefficients secret random_coeffs zero = secret
coefficients secret random_coeffs (suc k) = random_coeffs k

power-suc : (x : GfpScalar) (j : ℕ) → power x (suc j) ≡ x ⊗ power x j
unfolding power
power-suc x j = refl

power_one : (x : GfpScalar) → power x 1 ≡ x
unfolding power
power_one x = ⊗-one x

powers_eval :
    (n : ℕ) (c : ℕ → GfpScalar) (x : GfpScalar)
    → sum n (λ j. power x (suc j) ⊗ c j) ≡ x ⊗ eval n c x
unfolding sum eval
powers_eval zero c x = sym (⊗-zero x)
powers_eval (suc n) c x =
    ap₂ ◌⊕◌ (ap (λ (s : GfpScalar). s ⊗ c 0) (power_one x)) (
      sum_congr n _ (λ j. x ⊗ (power x (suc j) ⊗ c (suc j)))
        (λ j h.
          ap (λ (s : GfpScalar). s ⊗ c (suc j)) (power-suc x (suc j)) ∙ ⊗_assoc x _ (c (suc j)))
      ∙ sym (⊗-sum n x _)
      ∙ ap (◌⊗◌ x) (powers_eval n (λ k. c (suc k)) x))
    ∙ sym (⊗-⊕ x (c 0) _)

-- A row of the Vandermonde matrix times the random coefficients, plus the secret, is the value at
-- the player's point of the polynomial that they are the coefficients of.
pub get_vandermonde-eval :
    (degree : ℕ) (secret : GfpScalar) (random_coeffs : ℕ → GfpScalar) (i : ℕ)
    → dot degree (get_vandermonde i) random_coeffs ⊕ secret
      ≡ eval (suc degree) (coefficients secret random_coeffs) (gfp (i + 1))
unfolding dot eval coefficients
get_vandermonde-eval degree secret random_coeffs i =
    ⊕_comm _ secret
    ∙ ap (◌⊕◌ secret) (
        sum_congr degree _ _
          (λ j h. ap (λ (s : GfpScalar). s ⊗ random_coeffs j) (get_vandermonde-power i j))
        ∙ powers_eval degree random_coeffs (gfp (i + 1)))

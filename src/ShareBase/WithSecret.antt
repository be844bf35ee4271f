-- ===== src/ShareBase/WithSecret.antt =====
-- The reconstruction vectors of `get_reconstruction_vector_with_secret`: Lagrange's interpolation at
-- the secret's point 0 and the points of the players `1 … degree + 1`, one of them left out.
use native.Mathlib.Decide.{ℕ_discrete}
use linux_copy.Common.{
  ℕ, zero, suc, ◌+◌, ◌<◌, ◌≤◌, ◌≡◌, ◌≢◌, refl, ap, ap₂, ◌∙◌, sym, arith, ◌==◌, ==_ne, ==_iff,
  ==_refl, Bool-cases, inl, inr, fun_ext, if◌then◌else◌, List, ◌∷◌, tabulate, get_or,
  get_or-tabulate,
}
use linux_copy.Scalar.{pr}
use linux_copy.Gfp.{GfpScalar, gfp, ◌⊖◌, ◌⊗◌, ◌⊘◌, same}
use linux_copy.Gfp.Ring.{⊗_assoc, one-⊗, ⊗-one}
use linux_copy.Gfp.Inverse.{gfp-injective, value-gfp}
use linux_copy.Poly.Sum.{prod, dot, sum_congr, prod_congr}
use linux_copy.Poly.Eval.{IsPoly}
use linux_copy.Poly.Lagrange.{Distinct, basis, basis_factor, interpolate_exact}
use linux_copy.ShareBase.{
  secret_factor_loop, get_reconstruction_factor_with_secret, secret_vector_loop,
  get_reconstruction_vector_with_secret,
}

-- The numbers from 0 on without `e`, in order.
unfoldable pub skip : ℕ → ℕ → ℕ
skip zero k = suc k
skip (suc e) zero = 0
skip (suc e) (suc k) = suc (skip e k)

pub skip-ne : (e k : ℕ) → skip e k ≢ e
unfolding skip
skip-ne zero k = omega arith
skip-ne (suc e) zero = omega arith
skip-ne (suc e) (suc k) = omega (arith, skip-ne e k)

pub skip-le : (e k : ℕ) → skip e k ≤ suc k
unfolding skip
skip-le zero k = omega arith
skip-le (suc e) zero = omega arith
skip-le (suc e) (suc k) = omega (arith, skip-le e k)

pub skip-injective : (e i j : ℕ) → skip e i ≡ skip e j → i ≡ j
unfolding skip
skip-injective zero i j h = omega arith
skip-injective (suc e) zero zero h = refl
skip-injective (suc e) zero (suc j) h = absurd (omega arith)
skip-injective (suc e) (suc i) zero h = absurd (omega arith)
skip-injective (suc e) (suc i) (suc j) h = ap suc (skip-injective e i j (omega arith))

prod-skip :
    (n e : ℕ) (f : ℕ → GfpScalar)
    → e ≤ n
    → f e ≡ gfp 1
    → prod (suc n) f ≡ prod n (λ k. f (skip e k))
unfolding prod skip
prod-skip n zero f h one = ap (λ (s : GfpScalar). s ⊗ prod n (λ k. f (suc k))) one ∙ one-⊗ _
prod-skip zero (suc e) f h one = elim h [ ]
prod-skip (suc n) (suc e) f h one =
    ap (◌⊗◌ (f 0)) (prod-skip n e (λ k. f (suc k)) (omega arith) one)

-- What a round of the loop multiplies by.
round_factor : ℕ → GfpScalar → ℕ → ℕ → GfpScalar
round_factor e point player_i offset =
    if offset == e
    then gfp 1
    else if same (gfp player_i) (gfp offset)
    then gfp 1
    else (gfp offset ⊖ point) ⊘ (gfp offset ⊖ gfp player_i)

round_lem :
    (e player_i offset : ℕ) (point factor : GfpScalar)
    → (if offset == e
        then factor
        else if same (gfp player_i) (gfp offset)
        then factor
        else factor ⊗ ((gfp offset ⊖ point) ⊘ (gfp offset ⊖ gfp player_i)))
      ≡ factor ⊗ round_factor e point player_i offset
unfolding round_factor
round_lem e player_i offset point factor = elim (Bool-cases (offset == e)) [
  | inl skipped ↦ rw skipped (sym (⊗-one factor))
  | inr other ↦ rw other (elim (Bool-cases (same (gfp player_i) (gfp offset))) [
    | inl own ↦ rw own (sym (⊗-one factor))
    | inr ne ↦ rw ne
  ])
]

secret_factor_loop-prod :
    (e player_i rounds offset : ℕ) (point factor : GfpScalar)
    → secret_factor_loop e point player_i rounds offset factor
      ≡ factor ⊗ prod rounds (λ k. round_factor e point player_i (offset + k))
unfolding secret_factor_loop prod
secret_factor_loop-prod e player_i zero offset point factor = sym (⊗-one factor)
secret_factor_loop-prod e player_i (suc rounds) offset point factor =
    secret_factor_loop-prod e player_i rounds (offset + 1) point _
    ∙ ap₂ ◌⊗◌
        (round_lem e player_i offset point factor
          ∙ ap (λ (k : ℕ). factor ⊗ round_factor e point player_i k) {x = offset} {y = offset + 0}
              (omega arith))
        (ap (prod rounds) (
          fun_ext (λ k.
            ap (round_factor e point player_i) {x = offset + 1 + k} {y = offset + suc k}
              (omega arith))))
    ∙ ⊗_assoc factor _ _

-- At a number that is not left out a round's factor is that of the basis polynomial.
round_factor-basis :
    (e i k : ℕ) (point : GfpScalar)
    → skip e i < pr
    → skip e k < pr
    → round_factor e point (skip e i) (skip e k) ≡ basis_factor (λ k. gfp (skip e k)) i point k
unfolding round_factor
round_factor-basis e i k point hi hk =
    rw (==_ne (skip e k) e (skip-ne e k)) (elim (ℕ_discrete k i) [
      | yes eq ↦ rw (
        (==_iff k i).1 eq,
        (==_iff (gfp (skip e i)).value (gfp (skip e k)).value).1
            (ap (λ (k : ℕ). (gfp (skip e k)).value) (sym eq)),
      )
      | no ne ↦ rw (
        ==_ne k i ne,
        ==_ne (gfp (skip e i)).value (gfp (skip e k)).value (λ eq. ne (
            sym (
              skip-injective e i k
                (sym (value-gfp (skip e i) hi) ∙ eq ∙ value-gfp (skip e k) hk)))),
      )
    ])

factor_with_secret-basis :
    (e degree i : ℕ) (point : GfpScalar)
    → e ≤ degree + 1
    → degree + 1 < pr
    → i ≤ degree
    → get_reconstruction_factor_with_secret e point (skip e i) degree
      ≡ basis (degree + 1) (λ k. gfp (skip e k)) i point
unfolding get_reconstruction_factor_with_secret basis
factor_with_secret-basis e degree i point he small hi =
    secret_factor_loop-prod e (skip e i) (degree + 1 + 1) 0 point (gfp 1)
    ∙ one-⊗ _
    ∙ ap₂ prod {x = degree + 1 + 1} {y = suc (degree + 1)} (omega arith)
        (fun_ext (λ k. ap (round_factor e point (skip e i)) {x = 0 + k} {y = k} (omega arith)))
    ∙ prod-skip (degree + 1) e (round_factor e point (skip e i)) he
        (unfold round_factor in rw (==_refl e))
    ∙ prod_congr (degree + 1) _ _ (λ k hk.
      round_factor-basis e i k point (omega (arith, skip-le e i)) (omega (arith, skip-le e k)))

module _ (e : ℕ) (point : GfpScalar) (degree : ℕ) where
  entry : ℕ → GfpScalar
  entry i = get_reconstruction_factor_with_secret e point i degree

  vector_after :
      (rounds i : ℕ)
      → e < i
      → secret_vector_loop e point degree rounds i ≡ tabulate rounds (λ k. entry (i + k))
  unfolding secret_vector_loop entry
  vector_after zero i h = refl
  vector_after (suc rounds) i h = rw (==_ne i e (omega arith)) (
      ap₂ ◌∷◌ (ap entry {x = i} {y = i + 0} (omega arith)) (
        vector_after rounds (i + 1) (omega arith)
        ∙ ap (tabulate rounds)
            (fun_ext (λ k. ap entry {x = i + 1 + k} {y = i + suc k} (omega arith)))))

  vector_before :
      (rounds i d : ℕ)
      → e ≡ i + d
      → d ≤ rounds
      → secret_vector_loop e point degree (suc rounds) i
        ≡ tabulate rounds (λ k. entry (i + skip d k))
  unfolding secret_vector_loop entry skip
  vector_before rounds i zero he h = rw ((==_iff i e).1 (omega arith)) (
      vector_after rounds (i + 1) (omega arith)
      ∙ ap (tabulate rounds)
          (fun_ext (λ k. ap entry {x = i + 1 + k} {y = i + suc k} (omega arith))))
  vector_before zero i (suc d) he h = elim h [ ]
  vector_before (suc rounds) i (suc d) he h = rw (==_ne i e (omega arith)) (
      ap₂ ◌∷◌ (ap entry {x = i} {y = i + 0} (omega arith)) (
        vector_before rounds (i + 1) d (omega arith) (omega arith)
        ∙ ap (tabulate rounds) (
            fun_ext (λ k. ap entry {x = i + 1 + skip d k} {y = i + suc (skip d k)} (omega arith)))))

-- The vector for `point`, with the player `e` left out, applied to the secret and the shares of the
-- other players is the value at `point` of the polynomial that they are values of.
pub vector_with_secret-eval :
    (e degree : ℕ) (point : GfpScalar) (g : GfpScalar → GfpScalar)
    → e ≤ degree + 1
    → degree + 1 < pr
    → IsPoly (degree + 1) g
    → dot
        (degree + 1)
        (λ k. get_or (get_reconstruction_vector_with_secret e point degree) k (gfp 0))
        (λ k. g (gfp (skip e k)))
      ≡ g point
unfolding dot get_reconstruction_vector_with_secret entry
vector_with_secret-eval e degree point g he small hg =
    sum_congr (degree + 1) _ _
      (λ k hk. ap (λ (s : GfpScalar). s ⊗ g (gfp (skip e k))) (lookup k hk))
    ∙ interpolate_exact (degree + 1) (λ k. gfp (skip e k)) g distinct hg point
  where
    lookup :
        (k : ℕ)
        → k < degree + 1
        → get_or (secret_vector_loop e point degree (degree + 1 + 1) 0) k (gfp 0)
          ≡ basis (degree + 1) (λ k. gfp (skip e k)) k point
    lookup k hk =
        ap (λ (l : List GfpScalar). get_or l k (gfp 0))
          (ap (λ (r : ℕ). secret_vector_loop e point degree r 0) {x = degree + 1 + 1}
              {y = suc (degree + 1)} (omega arith)
            ∙ vector_before e point degree (degree + 1) 0 e (omega arith) he)
        ∙ get_or-tabulate (degree + 1) _ k (gfp 0) hk
        ∙ ap (λ (i : ℕ). get_reconstruction_factor_with_secret e point i degree) {x = 0 + skip e k}
            {y = skip e k} (omega arith)
        ∙ factor_with_secret-basis e degree k point he small (omega arith)

    distinct : Distinct (degree + 1) (λ k. gfp (skip e k))
    distinct i j hi hj ne eq = ne (
        skip-injective e i j (
          gfp-injective (skip e i) (skip e j) (omega (arith, skip-le e i))
            (omega (arith, skip-le e j)) eq))

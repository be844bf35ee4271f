-- ===== src/Gfp/Power.antt =====
-- `pow` of Math/gfpScalar.h: square and multiply, over the binary digits of the exponent.
use linux_copy.Common.{
  ℕ, zero, suc, ◌+◌, ◌/◌, ◌%◌, ◌≤◌, ◌≡◌, refl, ap, ◌∙◌, sym, arith, ◌==◌, Bool, if◌then◌else◌,
  ◌≡⟨◌⟩◌, ◌∎, Bool-cases, ==_ne, inl, inr,
}
use linux_copy.Gfp.{GfpScalar, gfp, ◌⊗◌, square}
use linux_copy.Gfp.Ring.{⊗_assoc, one-⊗, ⊗-one}

-- The specification: a product of `n` factors.
unfoldable pub power : GfpScalar → ℕ → GfpScalar
power x zero = gfp 1
power x (suc n) = x ⊗ power x n

-- `while(exp){ if(exp&1){res *= v_pow;} exp >>=1; v_pow.square(); }`, with fuel.
unfoldable pub pow_loop : ℕ → GfpScalar → GfpScalar → ℕ → GfpScalar
pow_loop zero res v_pow exp = res
pow_loop (suc fuel) res v_pow exp =
    let rest = pow_loop fuel (if exp % 2 == 1 then res ⊗ v_pow else res) (square v_pow) (exp / 2) in
    if exp == 0 then res else rest

-- The exponent itself is fuel enough.
unfoldable pub pow : GfpScalar → ℕ → GfpScalar
unfolding pow_loop
pow x exp = pow_loop exp (gfp 1) x exp

square_lem : (x : GfpScalar) → square x ≡ x ⊗ x
unfolding square
square_lem x = refl

pub power-+ : (x : GfpScalar) (m n : ℕ) → power x (m + n) ≡ power x m ⊗ power x n
unfolding power
power-+ x zero n = ap (power x) (omega arith) ∙ sym (one-⊗ (power x n))
power-+ x (suc m) n =
    ap (power x) {x = suc m + n} {y = suc (m + n)} (omega arith)
    ∙ ap (◌⊗◌ x) (power-+ x m n)
    ∙ sym (⊗_assoc x (power x m) (power x n))

power-square : (x : GfpScalar) (n : ℕ) → power (square x) n ≡ power x (n + n)
unfolding power
power-square x zero = refl
power-square x (suc n) =
    power (square x) (suc n)
    ≡⟨ (simp (square_lem, power-square x n, ⊗_assoc)) ⟩ power x (suc (suc (n + n)))
    ≡⟨ ap (power x) {x = suc (suc (n + n))} (omega arith) ⟩ power x (suc n + suc n) ∎

digit :
    (res x : GfpScalar) (e : ℕ)
    → (if e % 2 == 1 then res ⊗ x else res) ⊗ power x (e / 2 + e / 2) ≡ res ⊗ power x e
digit res x e = elim (Bool-cases (e % 2 == 1)) [
  | inl odd ↦ rw odd (⊗_assoc res x _ ∙ ap (λ (k : GfpScalar). res ⊗ k) (whole odd))
  | inr even ↦ rw even (ap (λ (k : ℕ). res ⊗ power x k) (ground arith))
]
  where
    whole : (e % 2 == 1) ≡ Bool.true → x ⊗ power x (e / 2 + e / 2) ≡ power x e
    whole odd = unfold power in ap (power x) {x = suc (e / 2 + e / 2)} {y = e} (ground arith)

pow_loop-power :
    (fuel : ℕ) (res x : GfpScalar) (e : ℕ) → e ≤ fuel → pow_loop fuel res x e ≡ res ⊗ power x e
unfolding pow_loop
pow_loop-power zero res x zero h = unfold power in sym (⊗-one res)
pow_loop-power zero res x (suc e) h = absurd (omega arith)
pow_loop-power (suc fuel) res x zero h = unfold power in sym (⊗-one res)
pow_loop-power (suc fuel) res x (suc e) h = rw (==_ne (suc e) 0 (omega arith)) (
    pow_loop-power fuel _ (square x) (suc e / 2) (omega arith)
    ∙ ap (◌⊗◌ _) (power-square x (suc e / 2))
    ∙ digit res x (suc e))

-- `pow` is the product of `exp` factors, for every exponent.
pub pow-power : (x : GfpScalar) (e : ℕ) → pow x e ≡ power x e
unfolding pow
pow-power x e = pow_loop-power e (gfp 1) x e (omega arith) ∙ one-⊗ (power x e)

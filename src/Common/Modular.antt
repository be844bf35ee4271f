-- ===== src/Common/Modular.antt =====
-- Congruences modulo a number, and the primality test by trial division.
use native.Mathlib.Nat.{
  div-add-mod, add-mul-mod_self_left, add-mod, mul_comm, mod-eq-zero_of_dvd, mul-div_cancel',
  dvd-mul_left, mul-le-mul,
}
use Prim.Native.Nat.{ℕ, zero, suc, ◌+◌, ◌*◌, ◌/◌, ◌%◌, ◌≤◌, ◌<◌, ◌∣◌}
use mathlib.Core.Path.{◌≡◌, ap, sym, ◌∙◌, ap₂, subst}
use mathlib.Core.Bool.{Bool, true, ◌&&◌, not}
use mathlib.Core.Logic.{◌⊎◌, ◌≢◌}
use native.Mathlib.Omega.{arith}
use linux_copy.Common.Tests.{◌==◌}

module _ (m : ℕ) where
  pub mul-mod_right : (c a : ℕ) → c * (a % m) % m ≡ c * a % m
  mul-mod_right c a =
      sym (ap (λ (t : ℕ). t % m) split ∙ add-mul-mod_self_left (c * (a % m)) m (c * (a / m)))
    where
      split : c * a ≡ c * (a % m) + m * (c * (a / m))
      split = omega (arith, ap (λ (t : ℕ). c * t) (div-add-mod a m))

  pub mul_congr_right : (c a b : ℕ) → a % m ≡ b % m → c * a % m ≡ c * b % m
  mul_congr_right c a b e =
      sym (mul-mod_right c a) ∙ ap (λ (t : ℕ). c * t % m) e ∙ mul-mod_right c b

  pub mul_congr : (a b c d : ℕ) → a % m ≡ b % m → c % m ≡ d % m → a * c % m ≡ b * d % m
  mul_congr a b c d p q =
      mul_congr_right a c d q
      ∙ ap (λ (t : ℕ). t % m) (mul_comm a d)
      ∙ mul_congr_right d a b p
      ∙ ap (λ (t : ℕ). t % m) (mul_comm d b)

  pub add_congr : (a b c d : ℕ) → a % m ≡ b % m → c % m ≡ d % m → (a + c) % m ≡ (b + d) % m
  add_congr a b c d p q = add-mod a c m ∙ ap₂ (λ (s t : ℕ). (s + t) % m) p q ∙ sym (add-mod b d m)

-- No number from 2 to `k + 1` divides `n`.
unfoldable pub no_divisor : ℕ → ℕ → Bool
no_divisor zero n = true
no_divisor (suc k) n = not (n % (k + 2) == 0) && no_divisor k n

no_divisor-mod : (k n d : ℕ) → no_divisor k n ≡ true → 2 ≤ d → d < k + 2 → n % d ≢ 0
unfolding no_divisor
no_divisor-mod zero n d h lo hi = absurd (omega arith)
no_divisor-mod (suc k) n d h lo hi = ground (arith, no_divisor-mod k n d)

-- A number with no divisor up to its root has none but 1 and itself.
pub no_divisor-prime :
    (k n g : ℕ) → no_divisor k n ≡ true → n < (k + 2) * (k + 2) → 0 < n → g ∣ n → (g ≡ 1) ⊎ (g ≡ n)
no_divisor-prime k n g h big pos dv = grind (
  arith,
  cofactor,
  mod-eq-zero_of_dvd g dv,
  mod-eq-zero_of_dvd (n / g) other,
  no_divisor-mod k n g h,
  no_divisor-mod k n (n / g) h,
  small,
  one,
)
  where
    cofactor : g * (n / g) ≡ n
    cofactor = mul-div_cancel' g dv

    other : n / g ∣ n
    other = subst (λ t. n / g ∣ t) cofactor (dvd-mul_left (n / g) g)

    small : k + 2 ≤ g → n / g < k + 2
    small h = grind (arith, mul-le-mul, cofactor)

    one : n / g ≡ 1 → g ≡ n
    one e = omega (arith, cofactor, ap (λ (t : ℕ). g * t) e)

-- ===== src/Common/Bits.antt =====
-- The masks of a word: `x & (2^k - 1)` and `(2^k - 1) ^ x` as arithmetic, at every width.
use Prim.Native.Nat.{
  ℕ, zero, suc, ◌+◌, ◌-◌, ◌*◌, ◌/◌, ◌%◌, ◌^◌, ◌≤◌, ◌<◌, min, bit_and, bit_xor, digits, differ,
  bit_and-bitwise, bit_xor-bitwise,
}
use mathlib.Core.Path.{◌≡◌, refl, ap, ◌∙◌}
use native.Mathlib.Nat.{
  pow-suc, one-le-pow, mod-lt, mod-eq_of_lt, div-add-mod, add-mul-mod_self_left,
}
use native.Mathlib.Omega.{arith}

-- Digits beyond those of the first number cost no fuel.
fuel_irrelevant :
    (z : ℕ → ℕ) (f : ℕ → ℕ → ℕ) (n a b : ℕ) → a ≤ n → digits z f n a b ≡ digits z f a a b
fuel_irrelevant z f n a b h = both n a a b h (omega arith)
  where
    both : (n m a b : ℕ) → a ≤ n → a ≤ m → digits z f n a b ≡ digits z f m a b
    both zero zero a b p q = refl
    both zero (suc m) zero b p q = refl
    both zero (suc m) (suc a) b p q = elim p [ ]
    both (suc n) zero zero b p q = refl
    both (suc n) zero (suc a) b p q = elim q [ ]
    both (suc n) (suc m) zero b p q = refl
    both (suc n) (suc m) (suc a) b p q =
        ap (λ (t : ℕ). t * 2 + f (suc a % 2) (b % 2))
          (both n m (suc a / 2) (b / 2) (omega arith) (omega arith))

and_step : (a b : ℕ) → bit_and a b ≡ bit_and (a / 2) (b / 2) * 2 + min (a % 2) (b % 2)
and_step zero b = simp bit_and-bitwise (omega arith)
and_step (suc a) b =
    simp bit_and-bitwise
      (omega (arith, fuel_irrelevant (λ b. zero) min a (suc a / 2) (b / 2) (omega arith)))

xor_step : (a b : ℕ) → bit_xor a b ≡ bit_xor (a / 2) (b / 2) * 2 + differ (a % 2) (b % 2)
xor_step zero b = simp bit_xor-bitwise (omega arith)
xor_step (suc a) b =
    simp bit_xor-bitwise
      (omega (arith, fuel_irrelevant (λ b. b) differ a (suc a / 2) (b / 2) (omega arith)))

differ_small : (x y : ℕ) → x < 2 → y < 2 → differ x y ≡ (x + y) % 2
differ_small zero y p q = omega arith
differ_small (suc zero) zero p q = refl
differ_small (suc zero) (suc zero) p q = refl
differ_small (suc zero) (suc (suc y)) p q = absurd (omega arith)
differ_small (suc (suc x)) y p q = absurd (omega arith)

pub zero-bit_xor : (b : ℕ) → bit_xor 0 b ≡ b
zero-bit_xor b = bit_xor-bitwise 0 b

digits-zero : (n a : ℕ) → digits (λ b. zero) min n a 0 ≡ 0
digits-zero zero a = refl
digits-zero (suc n) zero = refl
digits-zero (suc n) (suc a) = omega (arith, digits-zero n (suc a / 2))

bit_and-zero : (a : ℕ) → bit_and a 0 ≡ 0
bit_and-zero a = simp bit_and-bitwise (digits-zero a a)

mod-mul_two : (m a : ℕ) → 0 < m → a % (m * 2) ≡ a / 2 % m * 2 + a % 2
mod-mul_two m a h =
    ap (λ (t : ℕ). t % (m * 2)) whole
    ∙ add-mul-mod_self_left low (m * 2) (a / 2 / m)
    ∙ mod-eq_of_lt (omega (arith, mod-lt (a / 2) h))
  where
    low : ℕ
    low = a / 2 % m * 2 + a % 2

    whole : a ≡ low + m * 2 * (a / 2 / m)
    whole = omega (arith, div-add-mod (a / 2) m)

-- A mask of `k` ones keeps the `k` low digits.
pub bit_and-mask : (k a : ℕ) → bit_and a (2 ^ k - 1) ≡ a % 2 ^ k
bit_and-mask zero a = omega (arith, bit_and-zero a)
bit_and-mask (suc k) a = ground (
  arith,
  and_step a (2 ^ suc k - 1),
  pow-suc 2 k,
  one-le-pow k 2,
  bit_and-mask k (a / 2),
  mod-mul_two (2 ^ k) a (one-le-pow k 2 (omega arith)),
)

-- Its exclusive or with a number of `k` digits flips them all.
pub mask-bit_xor : (k a : ℕ) → a < 2 ^ k → bit_xor (2 ^ k - 1) a ≡ 2 ^ k - 1 - a
mask-bit_xor zero a h = omega (arith, zero-bit_xor a)
mask-bit_xor (suc k) a h = ground (
  arith,
  xor_step (2 ^ suc k - 1) a,
  differ_small ((2 ^ suc k - 1) % 2) (a % 2),
  pow-suc 2 k,
  one-le-pow k 2,
  mask-bit_xor k (a / 2),
)

-- One digit below an even number is added by an exclusive or.
pub bit_xor-double : (b c : ℕ) → b < 2 → bit_xor b (c * 2) ≡ b + c * 2
bit_xor-double b c h =
    ground (arith, xor_step b (c * 2), differ_small (b % 2) (c * 2 % 2), zero-bit_xor c)

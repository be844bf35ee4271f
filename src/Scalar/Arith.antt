-- ===== src/Scalar/Arith.antt =====
-- The word arithmetic of gfpScalar.h is arithmetic modulo the prime.
use Prim.Native.Nat.{bit_and, bit_xor}
use native.Mathlib.Nat.{mul-le-mul}
use linux_copy.Common.{
  ℕ, ◌+◌, ◌-◌, ◌*◌, ◌/◌, ◌%◌, ◌^◌, ◌<◌, ◌≤◌, ◌≡◌, ap, arith, leb, if◌then◌else◌,
}
use linux_copy.Common.Bits.{bit_and-mask, mask-bit_xor, bit_xor-double}
use linux_copy.Scalar.{pr, word, add_mod, mult_mod, mod_prime, additive_inverse, sub}

-- For reduced words, `add_mod` is the sum modulo the prime.
pub add_mod-mod : (a b : ℕ) → a < pr → b < pr → add_mod a b ≡ (a + b) % pr
unfolding add_mod
add_mod-mod a b ha hb = ground arith

-- `modPrime` of any 32-bit word is its remainder by the prime.
pub mod_prime-mod : (x : ℕ) → x < word → mod_prime x ≡ x % pr
unfolding mod_prime
mod_prime-mod x h = ground (arith, bit_and-mask 31 x)

-- The exclusive or with the prime is the difference from it.
pub additive_inverse-sub : (x : ℕ) → x ≤ pr → additive_inverse x ≡ (pr - x) % pr
unfolding additive_inverse
additive_inverse-sub x h = ground (arith, mask-bit_xor 31 x)

-- The two halves that `mult_mod` adds are the low 31 bits of the product and the bits above.
halves :
    (n : ℕ)
    → n < 2 ^ 62
    → bit_and (n % 2 ^ 64 % word) pr
        + bit_xor (n % 2 ^ 64 % word / 2 ^ 31) (n % 2 ^ 64 / 2 ^ 32 * 2 % word)
      ≡ n % 2 ^ 31 + n / 2 ^ 31
halves n h = omega (
  arith,
  bit_and-mask 31 (n % 2 ^ 64 % word),
  ap (bit_xor (n % 2 ^ 64 % word / 2 ^ 31)) {x = n % 2 ^ 64 / 2 ^ 32 * 2 % word}
      {y = n / 2 ^ 32 * 2} (omega arith),
  bit_xor-double (n % 2 ^ 64 % word / 2 ^ 31) (n / 2 ^ 32) (omega arith),
)

-- Adding the halves and subtracting the prime once reduces a product of two residues.
fold_mod :
    (n : ℕ)
    → n < (2 ^ 31 - 1) * (2 ^ 31 - 1)
    → (let ret = (n % 2 ^ 31 + n / 2 ^ 31) % word in if leb pr ret then ret - pr else ret) ≡ n % pr
fold_mod n h = ground arith

product_bound : (a b : ℕ) → a ≤ pr → b < pr → a * b < pr * pr
product_bound a b ha hb = grind (arith, mul-le-mul)

-- For a factor of at most the prime and a reduced one, `mult_mod`, which folds the 64-bit product at
-- the exponent of the Mersenne prime, is the product modulo the prime.
pub mult_mod-mod : (a b : ℕ) → a ≤ pr → b < pr → mult_mod a b ≡ a * b % pr
unfolding mult_mod
mult_mod-mod a b ha hb =
    rw (halves (a * b) (omega (arith, product_bound a b ha hb)))
      (fold_mod (a * b) (product_bound a b ha hb))

-- For reduced words, the operator `-` is the difference modulo the prime.
pub sub-mod : (a b : ℕ) → a < pr → b < pr → sub a b ≡ (a + (pr - b)) % pr
unfolding sub
sub-mod a b ha hb = ground (
  arith,
  additive_inverse-sub b (omega arith),
  add_mod-mod a (additive_inverse b) ha (omega (arith, additive_inverse-sub b (omega arith))),
)

-- ===== src/Scalar.antt =====
-- Math/gfpScalar.h, in its default build `PR_31`: the machine level. A `TYPE` is an unsigned 32-bit
-- word, a number below `2 ^ 32`, with its wrap-around written out; a `gfpScalar` is its field
-- `value`. The integers modulo the prime that these words stand for are in Field/Gfp.
pub mod Arith
pub mod Inverse
pub mod Fixed
use Prim.Native.Nat.{bit_and, bit_xor}
use mathlib.Core.WellFounded.{Acc}
use linux_copy.Common.{
  ℕ, zero, suc, ◌+◌, ◌-◌, ◌*◌, ◌/◌, ◌%◌, ◌^◌, ◌<◌, Bool, true, false, arith, ltb, leb, ◌==◌,
  if◌then◌else◌,
}
use linux_copy.Common.Order.{lt_acc}
use linux_copy.Common.Int.{ℤ, pos, negsuc, sub_ℕ, pos_part, neg_part}

-- The number of values of a `TYPE`.
abbrev pub word : ℕ
word = 2 ^ 32

abbrev pub mersenne_prime_exp : ℕ
mersenne_prime_exp = 31

abbrev pub pr : ℕ
pr = 2147483647

abbrev pub mid_pr : ℕ
mid_pr = (pr - 1) / 2 ^ 1 + 1

abbrev pub sqrt_exp : ℕ
sqrt_exp = (pr + 1) / 2 ^ 2

abbrev pub max_positive : ℕ
max_positive = pr / 2 ^ 1

abbrev pub bits_length : ℕ
bits_length = 31

abbrev pub fixed_precision : ℕ
fixed_precision = 12

abbrev pub int_precision : ℕ
int_precision = bits_length - fixed_precision

abbrev pub const_gap_in_truncation : ℕ
const_gap_in_truncation = 2 ^ int_precision - 1

abbrev pub const_encode : ℕ
const_encode = 2 ^ (bits_length - 2)

abbrev pub const_decode : ℕ
const_decode = 2 ^ (bits_length - 2 - fixed_precision)

-- The low and the high word of the 64-bit product.
unfoldable pub mul32 : ℕ → ℕ → ℕ × ℕ
mul32 a b = let cc = a * b % 2 ^ 64 in (cc % word, cc / 2 ^ 32)

unfoldable pub add_mod : ℕ → ℕ → ℕ
add_mod a b = let ret = (a + b) % word in if leb pr ret then ret - pr else ret

unfoldable pub mult_mod : ℕ → ℕ → ℕ
unfolding mul32
mult_mod a b =
    let (e, c) = mul32 a b in
    let ret =
      (bit_and e pr
        + bit_xor (e / 2 ^ mersenne_prime_exp) (c * 2 ^ (32 - mersenne_prime_exp) % word))
      % word in
    if leb pr ret then ret - pr else ret

unfoldable pub mod_prime : ℕ → ℕ
mod_prime x =
    let i = (bit_and x pr + x / 2 ^ mersenne_prime_exp) % word in if leb pr i then i - pr else i

unfoldable pub additive_inverse : ℕ → ℕ
additive_inverse x = if x == 0 then 0 else bit_xor pr x

-- The out-parameters `x` and `y` are the result. The inner call is given them in the other order.
unfoldable pub extend_gcd : (a b : ℕ) → Acc ◌<◌ b → ℕ × ℕ
extend_gcd a zero (Acc.intro _ smaller) = (1, 0)
extend_gcd a (suc b) (Acc.intro _ smaller) =
    let (y, x) = extend_gcd (suc b) (a % suc b) (smaller (a % suc b) (omega arith)) in
    let tmp = mult_mod (a / suc b) x in (x, add_mod y (additive_inverse tmp))

unfoldable pub multiplicative_inverse : ℕ → ℕ
unfolding extend_gcd lt_acc
multiplicative_inverse it = (extend_gcd pr it (lt_acc it)).1

-- The class's operators, on the field `value`.
unfoldable pub sub : ℕ → ℕ → ℕ
sub a b = add_mod a (additive_inverse b)

unfoldable pub div : ℕ → ℕ → ℕ
div a b = mult_mod a (multiplicative_inverse b)

unfoldable pub is_negative : ℕ → Bool
is_negative value = ltb max_positive value

unfoldable pub msb : ℕ → ℕ
unfolding is_negative
msb value = if is_negative value then 1 else 0

-- `truncate`, for a shift count below the width of the word.
unfoldable pub truncate : ℕ → ℕ → ℕ
unfolding is_negative
truncate value d =
    if is_negative value then additive_inverse (additive_inverse value / 2 ^ d) else value / 2 ^ d

unfoldable pub magnify : ℕ → ℕ
unfolding is_negative
magnify value =
    if is_negative value
    then additive_inverse (additive_inverse value * 2 ^ fixed_precision % word)
    else value * 2 ^ fixed_precision % word

-- The conversions between `STYPE`, the 32-bit `int`, and `TYPE`.
abbrev pub word_of_int : ℤ → ℕ
word_of_int (pos n) = n % word
word_of_int (negsuc n) = word - 1 - n % word

abbrev pub int_of_word : ℕ → ℤ
int_of_word v = if ltb v (2 ^ 31) then pos v else sub_ℕ v word

unfoldable pub map_int_to_gfp : ℤ → ℕ
map_int_to_gfp (pos n) = word_of_int (pos n)
map_int_to_gfp (negsuc n) = word_of_int (sub_ℕ pr (suc n))

unfoldable pub map_gfp_to_int : ℕ → ℤ
map_gfp_to_int v =
    let res = int_of_word v in
    if ltb max_positive v then sub_ℕ (pos_part res) (neg_part res + pr) else res

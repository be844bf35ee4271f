-- ===== src/Matrix/Bits.antt =====
-- `decompose_bits` of Math/gfpMatrix.h and `init_bits_coeff` of Protocols/Share.cpp, on the words.
use Prim.Native.Nat.{bit_and}
use native.Mathlib.Nat.{pow-suc, suc-add, pow-le-pow_right}
use linux_copy.Common.{
  ℕ, zero, suc, ◌+◌, ◌*◌, ◌/◌, ◌%◌, ◌^◌, ◌<◌, ◌≤◌, ◌≡◌, refl, ap, ap₂, ◌∙◌, sym, arith, ◌==◌, ==_ne,
  if◌then◌else◌, List, [], set, ◌∷◌, length, All, Bool-cases, inl, inr,
}
use linux_copy.Common.Bits.{bit_and-mask}
use linux_copy.Scalar.{word, bits_length}

-- `while(!x.is_zero()){ res(idx) = x&1; idx++; x >>= 1; }`, with fuel.
unfoldable pub decompose_loop : ℕ → ℕ → ℕ → List ℕ → List ℕ
decompose_loop zero x idx res = res
decompose_loop (suc fuel) x idx res =
    let rest = decompose_loop fuel (x / 2 ^ 1) (idx + 1) (set res idx (bit_and x 1)) in
    if x == 0 then res else rest

zeros : ℕ → List ℕ
zeros zero = []
zeros (suc n) = 0 ∷ zeros n

-- The row is set to zero first. The word itself is fuel enough.
unfoldable pub decompose_bits : ℕ → ℕ → List ℕ
unfolding decompose_loop zeros
decompose_bits x bit_length = decompose_loop x x 0 (zeros bit_length)

-- `bits_coeff(0) = 1; bits_coeff(i) = bits_coeff(i-1) << 1;`
unfoldable pub bits_coeff : ℕ → ℕ
bits_coeff zero = 1
bits_coeff (suc i) = bits_coeff i * 2 ^ 1 % word

-- The specification: the number that a row of digits stands for, the lowest first.
unfoldable pub number : List ℕ → ℕ
number [] = 0
number (d ∷ ds) = d + 2 * number ds

-- The digits as they are found.
digits_of : ℕ → ℕ → List ℕ
digits_of zero x = []
digits_of (suc n) x = x % 2 ∷ digits_of n (x / 2)

digits_of-small : (n x : ℕ) → All (λ d. d < 2) (digits_of n x)
unfolding digits_of
digits_of-small zero x = tt
digits_of-small (suc n) x = (omega arith, digits_of-small n (x / 2))

digits_of-zero : (n : ℕ) → digits_of n 0 ≡ zeros n
unfolding digits_of zeros
digits_of-zero zero = refl
digits_of-zero (suc n) = ap (◌∷◌ 0) (digits_of-zero n)

-- An entry that the loop has passed stays.
decompose_loop_passed :
    (fuel x idx d : ℕ) (res : List ℕ)
    → decompose_loop fuel x (suc idx) (d ∷ res) ≡ d ∷ decompose_loop fuel x idx res
unfolding decompose_loop
decompose_loop_passed zero x idx d res = refl
decompose_loop_passed (suc fuel) x idx d res = elim (Bool-cases (x == 0)) [
  | inl done ↦ rw done
  | inr more ↦ rw more (
      rw (suc-add idx 1)
        (decompose_loop_passed fuel (x / 2) (idx + 1) d (set res idx (bit_and x 1))))
]

decompose_loop-digits_of :
    (fuel n x : ℕ) → x < 2 ^ n → x ≤ fuel → decompose_loop fuel x 0 (zeros n) ≡ digits_of n x
unfolding decompose_loop zeros digits_of
decompose_loop-digits_of zero n zero h enough = sym (digits_of-zero n)
decompose_loop-digits_of (suc fuel) n zero h enough = sym (digits_of-zero n)
decompose_loop-digits_of zero n (suc x) h enough = elim enough [ ]
decompose_loop-digits_of (suc fuel) zero (suc x) h enough = absurd (omega arith)
decompose_loop-digits_of (suc fuel) (suc n) (suc x) h enough = rw (==_ne (suc x) 0 (omega arith)) (
    decompose_loop_passed fuel (suc x / 2) 0 (bit_and (suc x) 1) (zeros n)
    ∙ ap₂ ◌∷◌ (bit_and-mask 1 (suc x))
        (decompose_loop-digits_of fuel n (suc x / 2) (omega (arith, pow-suc 2 n)) (omega arith)))

number-digits_of : (n x : ℕ) → x < 2 ^ n → number (digits_of n x) ≡ x
unfolding number digits_of
number-digits_of zero x h = omega arith
number-digits_of (suc n) x h =
    omega (arith, number-digits_of n (x / 2) (omega (arith, pow-suc 2 n)))

length-digits_of : (n x : ℕ) → length (digits_of n x) ≡ n
unfolding digits_of
length-digits_of zero x = refl
length-digits_of (suc n) x = ap suc (length-digits_of n (x / 2))

-- A word that fits the row is decomposed into as many entries as the row has, all of them digits,
-- and they stand for the word.
pub number-decompose_bits :
    (x bit_length : ℕ)
    → x < 2 ^ bit_length
    → (length (decompose_bits x bit_length) ≡ bit_length)
      × All (λ d. d < 2) (decompose_bits x bit_length)
      × (number (decompose_bits x bit_length) ≡ x)
unfolding decompose_bits
number-decompose_bits x bit_length h =
    rw (decompose_loop-digits_of x bit_length x h (omega arith))
      (length-digits_of bit_length x, digits_of-small bit_length x, number-digits_of bit_length x h)

-- The weighted sum of a row of digits with the coefficients from index `i` on.
unfoldable pub weighted : ℕ → List ℕ → ℕ
weighted i [] = 0
weighted i (d ∷ ds) = d * bits_coeff i + weighted (suc i) ds

bits_coeff-pow : (i : ℕ) → i < 31 → bits_coeff i ≡ 2 ^ i
unfolding bits_coeff
bits_coeff-pow zero h = refl
bits_coeff-pow (suc i) h = omega (
  arith,
  bits_coeff-pow i (omega arith),
  pow-suc 2 i,
  pow-le-pow_right {n = 2} (omega arith) {i = i} {j = 29} (omega arith),
)

weighted-number : (i : ℕ) (ds : List ℕ) → i + length ds ≤ 31 → weighted i ds ≡ 2 ^ i * number ds
unfolding weighted number
weighted-number i [] h = omega arith
weighted-number i (d ∷ ds) h = omega (
  arith,
  bits_coeff-pow i (omega arith),
  weighted-number (suc i) ds (omega arith),
  pow-suc 2 i,
  ap (λ (t : ℕ). d * t) (bits_coeff-pow i (omega arith)),
  ap (λ (t : ℕ). t * number ds) (pow-suc 2 i),
)

-- The coefficients recompose the word that `decompose_bits` took apart into `BITS_LENGTH` digits.
pub weighted-decompose_bits :
    (x : ℕ) → x < 2 ^ bits_length → weighted 0 (decompose_bits x bits_length) ≡ x
weighted-decompose_bits x h =
    let (len, small, value) = number-decompose_bits x bits_length h in
    weighted-number 0 (decompose_bits x bits_length) (omega (arith, len)) ∙ omega (arith, value)

-- ===== src/Bit/Less.antt =====
-- The comparison of two rows of bits, from the disjunctions of where they differ.
use linux_copy.Common.{
  ℕ, zero, suc, ◌+◌, ◌*◌, ◌≡◌, ◌≢◌, refl, ap, ap₂, ◌∙◌, sym, arith, Bool, true, false, not, ◌&&◌,
  ltb, if◌then◌else◌, inl, inr, ◌⊎◌,
}
use linux_copy.Gfp.{GfpScalar, gfp, ◌⊕◌, ◌⊖◌, ◌⊗◌}
use linux_copy.Gfp.Ring.{zero-⊕, ⊕-zero, zero-⊗, one-⊗}
use linux_copy.Gfp.Inverse.{sub_of_add, sub_self}
use linux_copy.Poly.Sum.{prod}

-- A bit as a scalar and as a number, and the number of a row of bits, the lowest first.
abbrev pub bit : Bool → GfpScalar
bit true = gfp 1
bit false = gfp 0

abbrev digit : Bool → ℕ
digit true = 1
digit false = 0

unfoldable pub number_of : ℕ → (ℕ → Bool) → ℕ
number_of zero a = 0
number_of (suc n) a = digit (a 0) + 2 * number_of n (λ k. a (suc k))

abbrev pub xor : Bool → Bool → Bool
xor true b = not b
xor false b = b

-- Whether rows differ, and whether the first is the smaller.
differ : ℕ → (ℕ → Bool) → (ℕ → Bool) → Bool
differ zero a b = false
differ (suc n) a b = if xor (a 0) (b 0) then true else differ n (λ k. a (suc k)) (λ k. b (suc k))

less : ℕ → (ℕ → Bool) → (ℕ → Bool) → Bool
unfolding differ
less zero a b = false
less (suc n) a b =
    let rest = less n (λ k. a (suc k)) (λ k. b (suc k)) in
    if differ n (λ k. a (suc k)) (λ k. b (suc k)) then rest else not (a 0) && b 0

-- The disjunction of a row of scalars that are bits.
abbrev pub any : ℕ → (ℕ → GfpScalar) → GfpScalar
any n x = gfp 1 ⊖ prod n (λ k. gfp 1 ⊖ x k)

-- The sum of the products of `deltaXor` and the second row.
unfoldable pub weighted_deltas : ℕ → (ℕ → GfpScalar) → (ℕ → GfpScalar) → GfpScalar
weighted_deltas zero x b = gfp 0
weighted_deltas (suc n) x b =
    (any (suc n) x ⊖ any n (λ k. x (suc k))) ⊗ b 0
    ⊕ weighted_deltas n (λ k. x (suc k)) (λ k. b (suc k))

one-zero : gfp 1 ⊖ gfp 0 ≡ gfp 1
one-zero = sub_of_add (gfp 1) (gfp 0) (gfp 1) (sym (⊕-zero (gfp 1)))

complement-bit : (b : Bool) → gfp 1 ⊖ bit b ≡ bit (not b)
complement-bit true = sub_self (gfp 1)
complement-bit false = one-zero

prod-differ :
    (n : ℕ) (a b : ℕ → Bool)
    → prod n (λ k. gfp 1 ⊖ bit (xor (a k) (b k))) ≡ bit (not (differ n a b))
unfolding prod differ
prod-differ zero a b = refl
prod-differ (suc n) a b =
    ap₂ ◌⊗◌ (complement-bit (xor (a 0) (b 0))) (prod-differ n (λ k. a (suc k)) (λ k. b (suc k)))
    ∙ conjunction (xor (a 0) (b 0)) (differ n (λ k. a (suc k)) (λ k. b (suc k)))
  where
    conjunction : (x d : Bool) → bit (not x) ⊗ bit (not d) ≡ bit (not (if x then true else d))
    conjunction true d = zero-⊗ (bit (not d))
    conjunction false d = one-⊗ (bit (not d))

any-differ : (n : ℕ) (a b : ℕ → Bool) → any n (λ k. bit (xor (a k) (b k))) ≡ bit (differ n a b)
any-differ n a b =
    ap (◌⊖◌ (gfp 1)) (prod-differ n a b)
    ∙ complement-bit (not (differ n a b))
    ∙ ap bit (twice (differ n a b))
  where
    twice : (d : Bool) → not (not d) ≡ d
    twice true = refl
    twice false = refl

equal-less : (n : ℕ) (a b : ℕ → Bool) → differ n a b ≡ false → less n a b ≡ false
unfolding differ less
equal-less zero a b e = refl
equal-less (suc n) a b e =
    first (a 0) (b 0) (differ n (λ k. a (suc k)) (λ k. b (suc k))) _ e
      (equal-less n (λ k. a (suc k)) (λ k. b (suc k)))
  where
    first :
        (x y d l : Bool)
        → (if xor x y then true else d) ≡ false
        → (d ≡ false → l ≡ false)
        → (if d then l else not x && y) ≡ false
    first true true d l e h = ground arith
    first true false d l e h = ground arith
    first false true d l e h = ground arith
    first false false d l e h = ground arith

-- The sum is one when the first row is the smaller, and else zero.
weighted_deltas-less :
    (n : ℕ) (a b : ℕ → Bool)
    → weighted_deltas n (λ k. bit (xor (a k) (b k))) (λ k. bit (b k)) ≡ bit (less n a b)
unfolding weighted_deltas less differ
weighted_deltas-less zero a b = refl
weighted_deltas-less (suc n) a b =
    ap₂ (λ (t u : GfpScalar). t ⊗ bit (b 0) ⊕ u)
      (ap₂ ◌⊖◌ (any-differ (suc n) a b) (any-differ n (λ k. a (suc k)) (λ k. b (suc k))))
      (weighted_deltas-less n (λ k. a (suc k)) (λ k. b (suc k)))
    ∙ step (a 0) (b 0) (differ n (λ k. a (suc k)) (λ k. b (suc k)))
        (less n (λ k. a (suc k)) (λ k. b (suc k))) (equal-less n (λ k. a (suc k)) (λ k. b (suc k)))
  where
    unchanged : (y l : Bool) (t : GfpScalar) → t ≡ gfp 0 → t ⊗ bit y ⊕ bit l ≡ bit l
    unchanged y l t e =
        ap (λ (z : GfpScalar). z ⊗ bit y ⊕ bit l) e
        ∙ ap (λ (z : GfpScalar). z ⊕ bit l) (zero-⊗ (bit y))
        ∙ zero-⊕ (bit l)

    first : (y l : Bool) → l ≡ false → (gfp 1 ⊖ gfp 0) ⊗ bit y ⊕ bit l ≡ bit y
    first y l e =
        ap₂ (λ (z : GfpScalar) (m : Bool). z ⊗ bit y ⊕ bit m) one-zero e
        ∙ ap (λ (z : GfpScalar). z ⊕ gfp 0) (one-⊗ (bit y))
        ∙ ⊕-zero (bit y)

    step :
        (x y d l : Bool)
        → (d ≡ false → l ≡ false)
        → (bit (if xor x y then true else d) ⊖ bit d) ⊗ bit y ⊕ bit l
          ≡ bit (if d then l else not x && y)
    step true true true l h = unchanged true l _ (sub_self (gfp 1))
    step true true false l h = unchanged true l _ (sub_self (gfp 0)) ∙ ap bit (h refl)
    step true false true l h = unchanged false l _ (sub_self (gfp 1))
    step true false false l h = first false l (h refl)
    step false true true l h = unchanged true l _ (sub_self (gfp 1))
    step false true false l h = first true l (h refl)
    step false false true l h = unchanged false l _ (sub_self (gfp 1))
    step false false false l h = unchanged false l _ (sub_self (gfp 0)) ∙ ap bit (h refl)

number_of-differ :
    (n : ℕ) (a b : ℕ → Bool)
    → ((differ n a b ≡ false) × (number_of n a ≡ number_of n b))
      ⊎ ((differ n a b ≡ true) × (number_of n a ≢ number_of n b))
unfolding differ number_of
number_of-differ zero a b = inl (refl, refl)
number_of-differ (suc n) a b =
    step (a 0) (b 0) _ _ _ (number_of-differ n (λ k. a (suc k)) (λ k. b (suc k)))
  where
    step :
        (x y d : Bool) (m k : ℕ)
        → ((d ≡ false) × (m ≡ k)) ⊎ ((d ≡ true) × (m ≢ k))
        → (((if xor x y then true else d) ≡ false) × (digit x + 2 * m ≡ digit y + 2 * k))
          ⊎ (((if xor x y then true else d) ≡ true) × (digit x + 2 * m ≢ digit y + 2 * k))
    step true true d m k (inl (e, same)) = inl (e, omega (arith, same))
    step true true d m k (inr (e, ne)) = inr (e, omega (arith, ne))
    step true false d m k h = inr (refl, omega arith)
    step false true d m k h = inr (refl, omega arith)
    step false false d m k (inl (e, same)) = inl (e, omega (arith, same))
    step false false d m k (inr (e, ne)) = inr (e, omega (arith, ne))

less-number_of : (n : ℕ) (a b : ℕ → Bool) → less n a b ≡ ltb (number_of n a) (number_of n b)
unfolding less number_of
less-number_of zero a b = refl
less-number_of (suc n) a b =
    step (a 0) (b 0) _ _ _ _ (number_of-differ n (λ k. a (suc k)) (λ k. b (suc k)))
      (less-number_of n (λ k. a (suc k)) (λ k. b (suc k)))
  where
    step :
        (x y d l : Bool) (m k : ℕ)
        → ((d ≡ false) × (m ≡ k)) ⊎ ((d ≡ true) × (m ≢ k))
        → l ≡ ltb m k
        → (if d then l else not x && y) ≡ ltb (digit x + 2 * m) (digit y + 2 * k)
    step x y d l m k (inr (e, ne)) h = rw (e, h) (doubled x y m k ne)
      where
        doubled : (x y : Bool) (m k : ℕ) → m ≢ k → ltb m k ≡ ltb (digit x + 2 * m) (digit y + 2 * k)
        doubled true true m k ne = ground arith
        doubled true false m k ne = ground arith
        doubled false true m k ne = ground arith
        doubled false false m k ne = ground arith
    step true true d l m k (inl (e, same)) h = rw e (ground arith)
    step true false d l m k (inl (e, same)) h = rw e (ground arith)
    step false true d l m k (inl (e, same)) h = rw e (ground arith)
    step false false d l m k (inl (e, same)) h = rw e (ground arith)

pub weighted_deltas-number_of :
    (n : ℕ) (a b : ℕ → Bool)
    → weighted_deltas n (λ k. bit (xor (a k) (b k))) (λ k. bit (b k))
      ≡ bit (ltb (number_of n a) (number_of n b))
weighted_deltas-number_of n a b = weighted_deltas-less n a b ∙ ap bit (less-number_of n a b)

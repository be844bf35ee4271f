-- ===== src/Poly/Sum.antt =====
-- Finite sums and products of scalars. A vector is read as a function of the index.
use linux_copy.Common.{ℕ, zero, suc, ◌<◌, ◌≡◌, refl, ap, ap₂, ◌∙◌, sym, arith, ◌≢◌}
use linux_copy.Gfp.{GfpScalar, gfp, ◌⊕◌, ◌⊗◌}
use linux_copy.Gfp.Ring.{⊕_comm, ⊕_assoc, zero-⊕, ⊕-zero, ⊗_comm, ⊗-zero, ⊗-⊕}
use linux_copy.Gfp.Inverse.{⊗-ne-zero, gfp-injective}

unfoldable pub sum : ℕ → (ℕ → GfpScalar) → GfpScalar
sum zero f = gfp 0
sum (suc n) f = f 0 ⊕ sum n (λ k. f (suc k))

unfoldable pub prod : ℕ → (ℕ → GfpScalar) → GfpScalar
prod zero f = gfp 1
prod (suc n) f = f 0 ⊗ prod n (λ k. f (suc k))

-- `u.dot(v)`, and the product of a row with a column.
unfoldable pub dot : ℕ → (ℕ → GfpScalar) → (ℕ → GfpScalar) → GfpScalar
unfolding sum
dot n u v = sum n (λ k. u k ⊗ v k)

pub sum_congr : (n : ℕ) (f g : ℕ → GfpScalar) → ((k : ℕ) → k < n → f k ≡ g k) → sum n f ≡ sum n g
unfolding sum
sum_congr zero f g h = refl
sum_congr (suc n) f g h =
    ap₂ ◌⊕◌ (h 0 (omega arith))
      (sum_congr n (λ k. f (suc k)) (λ k. g (suc k)) (λ k hk. h (suc k) (omega arith)))

pub sum-zero : (n : ℕ) → sum n (λ k. gfp 0) ≡ gfp 0
unfolding sum
sum-zero zero = refl
sum-zero (suc n) = zero-⊕ _ ∙ sum-zero n

pub ⊕_interchange : (a b c d : GfpScalar) → (a ⊕ b) ⊕ (c ⊕ d) ≡ (a ⊕ c) ⊕ (b ⊕ d)
⊕_interchange a b c d =
    ⊕_assoc a b (c ⊕ d)
    ∙ ap (◌⊕◌ a) (sym (⊕_assoc b c d) ∙ ap (λ (s : GfpScalar). s ⊕ d) (⊕_comm b c) ∙ ⊕_assoc c b d)
    ∙ sym (⊕_assoc a c (b ⊕ d))

pub sum-⊕ : (n : ℕ) (f g : ℕ → GfpScalar) → sum n (λ k. f k ⊕ g k) ≡ sum n f ⊕ sum n g
unfolding sum
sum-⊕ zero f g = sym (zero-⊕ (gfp 0))
sum-⊕ (suc n) f g =
    ap (◌⊕◌ (f 0 ⊕ g 0)) (sum-⊕ n (λ k. f (suc k)) (λ k. g (suc k))) ∙ ⊕_interchange (f 0) (g 0) _ _

pub ⊗-sum : (n : ℕ) (a : GfpScalar) (f : ℕ → GfpScalar) → a ⊗ sum n f ≡ sum n (λ k. a ⊗ f k)
unfolding sum
⊗-sum zero a f = ⊗-zero a
⊗-sum (suc n) a f = ⊗-⊕ a (f 0) _ ∙ ap (◌⊕◌ (a ⊗ f 0)) (⊗-sum n a (λ k. f (suc k)))

pub sum-⊗ : (n : ℕ) (f : ℕ → GfpScalar) (a : GfpScalar) → sum n f ⊗ a ≡ sum n (λ k. f k ⊗ a)
sum-⊗ n f a = ⊗_comm (sum n f) a ∙ ⊗-sum n a f ∙ sum_congr n _ _ (λ k h. ⊗_comm a (f k))

-- Only the term at `i` survives.
pub sum_single :
    (n : ℕ) (f : ℕ → GfpScalar) (i : ℕ)
    → i < n
    → ((k : ℕ) → k < n → k ≢ i → f k ≡ gfp 0)
    → sum n f ≡ f i
unfolding sum
sum_single zero f i hi h = absurd (omega arith)
sum_single (suc n) f zero hi h =
    ap (◌⊕◌ (f 0)) (sum_congr n _ _ (λ k hk. h (suc k) (omega arith) (omega arith)) ∙ sum-zero n)
    ∙ ⊕-zero (f 0)
sum_single (suc n) f (suc i) hi h =
    ap (λ (s : GfpScalar). s ⊕ sum n (λ k. f (suc k))) (h 0 (omega arith) (omega arith))
    ∙ zero-⊕ _
    ∙ sum_single n (λ k. f (suc k)) i (omega arith)
        (λ k hk ne. h (suc k) (omega arith) (omega arith))

pub prod-ne-zero : (n : ℕ) (f : ℕ → GfpScalar) → ((k : ℕ) → k < n → f k ≢ gfp 0) → prod n f ≢ gfp 0
unfolding prod
prod-ne-zero zero f h = λ e. absurd (omega (arith, gfp-injective 1 0 (omega arith) (omega arith) e))
prod-ne-zero (suc n) f h =
    ⊗-ne-zero (f 0) _ (h 0 (omega arith))
      (prod-ne-zero n (λ k. f (suc k)) (λ k hk. h (suc k) (omega arith)))

pub prod_congr : (n : ℕ) (f g : ℕ → GfpScalar) → ((k : ℕ) → k < n → f k ≡ g k) → prod n f ≡ prod n g
unfolding prod
prod_congr zero f g h = refl
prod_congr (suc n) f g h =
    ap₂ ◌⊗◌ (h 0 (omega arith))
      (prod_congr n (λ k. f (suc k)) (λ k. g (suc k)) (λ k hk. h (suc k) (omega arith)))

-- A double sum row by row is the one column by column.
pub sum_comm :
    (rows cols : ℕ) (entry : ℕ → ℕ → GfpScalar)
    → sum cols (λ c. sum rows (λ r. entry r c)) ≡ sum rows (λ r. sum cols (entry r))
unfolding sum
sum_comm zero cols entry = sum-zero cols
sum_comm (suc rows) cols entry =
    sum-⊕ cols (entry 0) _ ∙ ap (◌⊕◌ (sum cols (entry 0))) (sum_comm rows cols (λ r. entry (suc r)))

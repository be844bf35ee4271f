-- ===== src/Poly/Eval.antt =====
-- Polynomial functions: evaluation, closure properties, and the bound on the number of roots.
use linux_copy.Common.{ℕ, zero, suc, ◌<◌, ◌≡◌, refl, ap, ap₂, ◌∙◌, sym, arith, ◌≢◌, subst}
use linux_copy.Gfp.{GfpScalar, gfp, ◌⊕◌, ◌⊗◌, ◌⊖◌, neg}
use linux_copy.Gfp.Ring.{
  gfp-+, gfp-*, by_four_values, ⊕_assoc, zero-⊕, ⊕-zero, ⊗_comm, ⊗-zero, ⊗-⊕, ⊗_assoc,
}
use linux_copy.Gfp.Inverse.{
  eq-zero_of_⊗, sub-ne-zero, sub_def, sub-add_cancel, eq_of_sub-eq-zero, sub_self, neg_one,
}
use linux_copy.Poly.Sum.{⊕_interchange}

-- `c 0 + c 1 x + … + c (n - 1) x ^ (n - 1)`.
unfoldable pub eval : ℕ → (ℕ → GfpScalar) → GfpScalar → GfpScalar
eval zero c x = gfp 0
eval (suc n) c x = c 0 ⊕ x ⊗ eval n (λ k. c (suc k)) x

pub eval-⊕ :
    (n : ℕ) (c d : ℕ → GfpScalar) (x : GfpScalar)
    → eval n (λ k. c k ⊕ d k) x ≡ eval n c x ⊕ eval n d x
unfolding eval
eval-⊕ zero c d x = sym (zero-⊕ (gfp 0))
eval-⊕ (suc n) c d x =
    ap (λ (s : GfpScalar). (c 0 ⊕ d 0) ⊕ x ⊗ s) (eval-⊕ n (λ k. c (suc k)) (λ k. d (suc k)) x)
    ∙ ap (◌⊕◌ (c 0 ⊕ d 0)) (⊗-⊕ x _ _)
    ∙ ⊕_interchange (c 0) (d 0) _ _

pub eval-⊗ :
    (n : ℕ) (a : GfpScalar) (c : ℕ → GfpScalar) (x : GfpScalar)
    → eval n (λ k. a ⊗ c k) x ≡ a ⊗ eval n c x
unfolding eval
eval-⊗ zero a c x = sym (⊗-zero a)
eval-⊗ (suc n) a c x =
    ap (λ (s : GfpScalar). a ⊗ c 0 ⊕ x ⊗ s) (eval-⊗ n a (λ k. c (suc k)) x)
    ∙ ap (◌⊕◌ (a ⊗ c 0)) (
        sym (⊗_assoc x a _)
        ∙ ap (λ (s : GfpScalar). s ⊗ eval n (λ k. c (suc k)) x) (⊗_comm x a)
        ∙ ⊗_assoc a x _)
    ∙ sym (⊗-⊕ a (c 0) _)

-- A function that a polynomial with `n` coefficients computes.
abbrev pub IsPoly : ℕ → (GfpScalar → GfpScalar) → Type 0
IsPoly n g = (c : ℕ → GfpScalar) × ((x : GfpScalar) → g x ≡ eval n c x)

eval-zero : (n : ℕ) (x : GfpScalar) → eval n (λ k. gfp 0) x ≡ gfp 0
unfolding eval
eval-zero zero x = refl
eval-zero (suc n) x = zero-⊕ _ ∙ ap (◌⊗◌ x) (eval-zero n x) ∙ ⊗-zero x

pub IsPoly-zero : (n : ℕ) → IsPoly n (λ x. gfp 0)
IsPoly-zero n = (λ k. gfp 0, λ x. sym (eval-zero n x))

-- The same polynomial with a zero coefficient more.
pad : ℕ → (ℕ → GfpScalar) → ℕ → GfpScalar
pad zero c k = gfp 0
pad (suc n) c zero = c 0
pad (suc n) c (suc k) = pad n (λ k. c (suc k)) k

eval-pad : (n : ℕ) (c : ℕ → GfpScalar) (x : GfpScalar) → eval (suc n) (pad n c) x ≡ eval n c x
unfolding eval pad
eval-pad zero c x = zero-⊕ _ ∙ ⊗-zero x
eval-pad (suc n) c x = ap (λ (s : GfpScalar). c 0 ⊕ x ⊗ s) (eval-pad n (λ k. c (suc k)) x)

pub IsPoly-pad : (n : ℕ) (g : GfpScalar → GfpScalar) → IsPoly n g → IsPoly (suc n) g
IsPoly-pad n g (c, h) = (pad n c, λ x. h x ∙ sym (eval-pad n c x))

shift : (ℕ → GfpScalar) → ℕ → GfpScalar
shift c zero = gfp 0
shift c (suc k) = c k

eval-shift : (n : ℕ) (c : ℕ → GfpScalar) (x : GfpScalar) → eval (suc n) (shift c) x ≡ x ⊗ eval n c x
unfolding eval shift
eval-shift n c x = zero-⊕ _

pub IsPoly-const : (a : GfpScalar) → IsPoly 1 (λ x. a)
unfolding eval
IsPoly-const a = (λ k. a, λ x. sym (ap (◌⊕◌ a) (⊗-zero x) ∙ ⊕-zero a))

-- A constant, with as many coefficients as are asked for.
pub IsPoly-constant : (n : ℕ) (a : GfpScalar) → IsPoly (suc n) (λ x. a)
IsPoly-constant zero a = IsPoly-const a
IsPoly-constant (suc n) a = IsPoly-pad (suc n) (λ x. a) (IsPoly-constant n a)

pub IsPoly-⊕ :
    (n : ℕ) (f g : GfpScalar → GfpScalar) → IsPoly n f → IsPoly n g → IsPoly n (λ x. f x ⊕ g x)
IsPoly-⊕ n f g (c, p) (d, q) = (λ k. c k ⊕ d k, λ x. ap₂ ◌⊕◌ (p x) (q x) ∙ sym (eval-⊕ n c d x))

pub IsPoly-scale :
    (n : ℕ) (a : GfpScalar) (f : GfpScalar → GfpScalar) → IsPoly n f → IsPoly n (λ x. a ⊗ f x)
IsPoly-scale n a f (c, p) = (λ k. a ⊗ c k, λ x. ap (◌⊗◌ a) (p x) ∙ sym (eval-⊗ n a c x))

pub IsPoly-shift : (n : ℕ) (f : GfpScalar → GfpScalar) → IsPoly n f → IsPoly (suc n) (λ x. x ⊗ f x)
IsPoly-shift n f (c, p) = (shift c, λ x. ap (◌⊗◌ x) (p x) ∙ sym (eval-shift n c x))

-- The quotient of a polynomial by `x - a`.
quotient : ℕ → (ℕ → GfpScalar) → GfpScalar → ℕ → GfpScalar
quotient zero c a k = gfp 0
quotient (suc n) c a zero = eval (suc n) (λ k. c (suc k)) a
quotient (suc n) c a (suc k) = quotient n (λ k. c (suc k)) a k

split_step : (d a q r : GfpScalar) → (d ⊕ a) ⊗ (q ⊕ d ⊗ r) ≡ a ⊗ q ⊕ d ⊗ (q ⊕ (d ⊕ a) ⊗ r)
split_step = by_four_values _ (λ d a q r. simp (← gfp-+, ← gfp-*) (ap gfp (omega arith)))

telescope : (x a p q r : GfpScalar) → p ≡ q ⊕ (x ⊖ a) ⊗ r → x ⊗ p ≡ a ⊗ q ⊕ (x ⊖ a) ⊗ (q ⊕ x ⊗ r)
telescope x a p q r e =
    ap (◌⊗◌ x) e
    ∙ subst (λ s. s ⊗ (q ⊕ (x ⊖ a) ⊗ r) ≡ a ⊗ q ⊕ (x ⊖ a) ⊗ (q ⊕ s ⊗ r)) (sub-add_cancel x a)
        (split_step (x ⊖ a) a q r)

-- A polynomial minus its value at `a` is a multiple of `x - a`.
eval-quotient :
    (n : ℕ) (c : ℕ → GfpScalar) (a x : GfpScalar)
    → eval (suc n) c x ≡ eval (suc n) c a ⊕ (x ⊖ a) ⊗ eval n (quotient n c a) x
unfolding eval quotient
eval-quotient zero c a x = simp (⊗-zero, ⊕-zero)
eval-quotient (suc n) c a x =
    ap (◌⊕◌ (c 0)) (telescope x a _ _ _ (eval-quotient n (λ k. c (suc k)) a x))
    ∙ sym (⊕_assoc (c 0) _ _)

-- At a root `a` the quotient has the other roots.
quotient_root :
    (n : ℕ) (c : ℕ → GfpScalar) (a x : GfpScalar)
    → eval (suc n) c a ≡ gfp 0
    → a ≢ x
    → eval (suc n) c x ≡ gfp 0
    → eval n (quotient n c a) x ≡ gfp 0
quotient_root n c a x root ne e = eq-zero_of_⊗ (x ⊖ a) _ (sub-ne-zero x a (λ p. ne (sym p))) (
    sym (zero-⊕ _)
    ∙ ap (λ (s : GfpScalar). s ⊕ (x ⊖ a) ⊗ eval n (quotient n c a) x) (sym root)
    ∙ sym (eval-quotient n c a x)
    ∙ e)

-- A polynomial with `n` coefficients that vanishes at `n` distinct points vanishes everywhere.
pub roots_eval :
    (n : ℕ) (c points : ℕ → GfpScalar)
    → ((i j : ℕ) → i < j → j < n → points i ≢ points j)
    → ((i : ℕ) → i < n → eval n c (points i) ≡ gfp 0)
    → (x : GfpScalar) → eval n c x ≡ gfp 0
roots_eval zero c points distinct vanish x = unfold eval in refl
roots_eval (suc n) c points distinct vanish x =
    eval-quotient n c (points 0) x
    ∙ ap₂ ◌⊕◌ (vanish 0 (omega arith)) (
        ap (◌⊗◌ (x ⊖ points 0)) (
          roots_eval n (quotient n c (points 0)) (λ i. points (suc i))
            (λ i j lt hj. distinct (suc i) (suc j) (omega arith) (omega arith))
            (λ i hi.
              quotient_root n c (points 0) (points (suc i)) (vanish 0 (omega arith))
                (distinct 0 (suc i) (omega arith) (omega arith)) (vanish (suc i) (omega arith)))
            x)
        ∙ ⊗-zero _)
    ∙ zero-⊕ (gfp 0)

-- Two polynomial functions with `n` coefficients that agree at `n` distinct points are equal.
pub IsPoly-unique :
    (n : ℕ) (f g : GfpScalar → GfpScalar) (points : ℕ → GfpScalar)
    → IsPoly n f
    → IsPoly n g
    → ((i j : ℕ) → i < j → j < n → points i ≢ points j)
    → ((i : ℕ) → i < n → f (points i) ≡ g (points i))
    → (x : GfpScalar) → f x ≡ g x
IsPoly-unique n f g points hf hg distinct agree x =
    eq_of_sub-eq-zero (f x) (g x) (as_poly x ∙ roots_eval n (d.0) points distinct vanish x)
  where
    minus : GfpScalar
    minus = neg (gfp 1)

    d : IsPoly n (λ x. f x ⊕ minus ⊗ g x)
    d = IsPoly-⊕ n f (λ x. minus ⊗ g x) hf (IsPoly-scale n minus g hg)

    as_poly : (x : GfpScalar) → f x ⊖ g x ≡ eval n (d.0) x
    as_poly x = sub_def (f x) (g x) ∙ ap (◌⊕◌ (f x)) (neg_one (g x)) ∙ d.1 x

    vanish : (i : ℕ) → i < n → eval n (d.0) (points i) ≡ gfp 0
    vanish i h =
        sym (as_poly (points i))
        ∙ ap (λ (s : GfpScalar). s ⊖ g (points i)) (agree i h)
        ∙ sub_self (g (points i))

-- ===== src/Poly/Lagrange.antt =====
-- Lagrange interpolation: the sum of the values at distinct points, weighted by the products
-- `(x_k - p) / (x_k - x_i)`, is the value at `p`.
use linux_copy.Common.{
  ℕ, zero, suc, ◌<◌, ◌≡◌, refl, ap, ap₂, ◌∙◌, sym, arith, fun_ext, ◌≢◌, subst, ◌==◌, if◌then◌else◌,
  ==_ne, ==_iff, suc-==-suc,
}
use native.Mathlib.Decide.{ℕ_discrete}
use linux_copy.Gfp.{GfpScalar, gfp, ◌⊕◌, ◌⊗◌, ◌⊖◌, ◌⊘◌, neg, inverse}
use linux_copy.Gfp.Ring.{gfp-+, gfp-*, by_value, by_four_values, ⊗_comm, zero-⊗, ⊗-zero, one-⊗}
use linux_copy.Gfp.Inverse.{sub-ne-zero, sub_def, div_def, div_self, sub_self, neg_one}
use linux_copy.Poly.Sum.{sum, prod, sum_single}
use linux_copy.Poly.Eval.{
  IsPoly, IsPoly-zero, IsPoly-pad, IsPoly-const, IsPoly-⊕, IsPoly-scale, IsPoly-shift,
  IsPoly-unique,
}

linear_split : (b c p f : GfpScalar) → ((b ⊖ p) ⊗ c) ⊗ f ≡ (b ⊗ c) ⊗ f ⊕ (neg (gfp 1) ⊗ c) ⊗ (p ⊗ f)
linear_split b c p f =
    ap (λ (s : GfpScalar). s ⊗ c ⊗ f) (sub_def b p ∙ ap (◌⊕◌ b) (neg_one p))
    ∙ by_four_values
        (λ b c p f. (b ⊕ neg (gfp 1) ⊗ p) ⊗ c ⊗ f ≡ (b ⊗ c) ⊗ f ⊕ (neg (gfp 1) ⊗ c) ⊗ (p ⊗ f))
        (λ b c p f.
          by_value
            (λ m.
              (gfp b ⊕ m ⊗ gfp p) ⊗ gfp c ⊗ gfp f
              ≡ (gfp b ⊗ gfp c) ⊗ gfp f ⊕ (m ⊗ gfp c) ⊗ (gfp p ⊗ gfp f))
            (λ m. simp (← gfp-+, ← gfp-*) (ap gfp (omega arith))) (neg (gfp 1)))
        b c p f

IsPoly-linear :
    (n : ℕ) (b c : GfpScalar) (f : GfpScalar → GfpScalar)
    → IsPoly n f
    → IsPoly (suc n) (λ p. ((b ⊖ p) ⊗ c) ⊗ f p)
IsPoly-linear n b c f h = subst (IsPoly (suc n)) (sym (fun_ext (λ p. linear_split b c p (f p)))) (
    IsPoly-⊕ (suc n) _ _ (IsPoly-scale (suc n) (b ⊗ c) f (IsPoly-pad n f h))
      (IsPoly-scale (suc n) (neg (gfp 1) ⊗ c) _ (IsPoly-shift n f h)))

IsPoly-prod : (m : ℕ) (b c : ℕ → GfpScalar) → IsPoly (suc m) (λ p. prod m (λ k. (b k ⊖ p) ⊗ c k))
unfolding prod
IsPoly-prod zero b c = IsPoly-const (gfp 1)
IsPoly-prod (suc m) b c =
    IsPoly-linear (suc m) (b 0) (c 0) _ (IsPoly-prod m (λ k. b (suc k)) (λ k. c (suc k)))

-- One factor of a basis polynomial: the player's own is skipped.
abbrev pub basis_factor : (ℕ → GfpScalar) → ℕ → GfpScalar → ℕ → GfpScalar
basis_factor x i p k = if k == i then gfp 1 else (x k ⊖ p) ⊘ (x k ⊖ x i)

unfoldable pub basis : ℕ → (ℕ → GfpScalar) → ℕ → GfpScalar → GfpScalar
basis n x i p = prod n (basis_factor x i p)

IsPoly-skip :
    (m i : ℕ) (b c : ℕ → GfpScalar)
    → i < m
    → IsPoly m (λ p. prod m (λ k. if k == i then gfp 1 else (b k ⊖ p) ⊗ c k))
unfolding prod
IsPoly-skip zero i b c h = elim h [ ]
IsPoly-skip (suc m) zero b c h =
    subst (IsPoly (suc m))
      (fun_ext
        (λ p. ap (λ f. gfp 1 ⊗ prod m f) (fun_ext (λ k. sym (rw (==_ne (suc k) 0 (omega arith)))))))
      (IsPoly-scale (suc m) (gfp 1) _ (IsPoly-prod m (λ k. b (suc k)) (λ k. c (suc k))))
IsPoly-skip (suc m) (suc i) b c h =
    subst (IsPoly (suc m))
      (fun_ext (λ p.
        ap₂ ◌⊗◌ (sym (rw (==_ne 0 (suc i) (omega arith))))
          (ap (prod m) (fun_ext (λ k. rw (suc-==-suc k i))))))
      (IsPoly-linear m (b 0) (c 0) _
        (IsPoly-skip m i (λ k. b (suc k)) (λ k. c (suc k)) (omega arith)))

IsPoly-basis : (n i : ℕ) (x : ℕ → GfpScalar) → i < n → IsPoly n (basis n x i)
unfolding basis
IsPoly-basis n i x h =
    subst (IsPoly n) (fun_ext (λ p. ap (prod n) (fun_ext (λ k. simp div_def))))
      (IsPoly-skip n i x (λ k. inverse (x k ⊖ x i)) h)

prod-eq-zero : (n : ℕ) (f : ℕ → GfpScalar) (k : ℕ) → k < n → f k ≡ gfp 0 → prod n f ≡ gfp 0
unfolding prod
prod-eq-zero zero f k h e = elim h [ ]
prod-eq-zero (suc n) f zero h e = ap (λ (s : GfpScalar). s ⊗ prod n (λ k. f (suc k))) e ∙ zero-⊗ _
prod-eq-zero (suc n) f (suc k) h e =
    ap (◌⊗◌ (f 0)) (prod-eq-zero n (λ k. f (suc k)) k (omega arith) e) ∙ ⊗-zero (f 0)

prod-eq-one : (n : ℕ) (f : ℕ → GfpScalar) → ((k : ℕ) → k < n → f k ≡ gfp 1) → prod n f ≡ gfp 1
unfolding prod
prod-eq-one zero f h = refl
prod-eq-one (suc n) f h =
    ap₂ ◌⊗◌ (h 0 (omega arith)) (prod-eq-one n (λ k. f (suc k)) (λ k hk. h (suc k) (omega arith)))
    ∙ one-⊗ (gfp 1)

-- The points are distinct.
abbrev pub Distinct : ℕ → (ℕ → GfpScalar) → Type 0
Distinct n x = (i j : ℕ) → i < n → j < n → i ≢ j → x i ≢ x j

basis_self : (n : ℕ) (x : ℕ → GfpScalar) (i : ℕ) → Distinct n x → i < n → basis n x i (x i) ≡ gfp 1
unfolding basis
basis_self n x i distinct hi = prod-eq-one n _ factor
  where
    factor : (k : ℕ) → k < n → basis_factor x i (x i) k ≡ gfp 1
    factor k hk = elim (ℕ_discrete k i) [
      | yes e ↦ rw ((==_iff k i).1 e)
      | no ne ↦ rw (==_ne k i ne) (div_self _ (sub-ne-zero (x k) (x i) (distinct k i hk hi ne)))
    ]

basis_other : (n : ℕ) (x : ℕ → GfpScalar) (i j : ℕ) → j < n → j ≢ i → basis n x i (x j) ≡ gfp 0
unfolding basis
basis_other n x i j hj ne = prod-eq-zero n _ j hj (
    rw (==_ne j i ne)
      (div_def _ _ ∙ ap (λ (s : GfpScalar). s ⊗ inverse (x j ⊖ x i)) (sub_self (x j)) ∙ zero-⊗ _))

-- The polynomial with the values `y` at the points `x`.
abbrev pub interpolate : ℕ → (ℕ → GfpScalar) → (ℕ → GfpScalar) → GfpScalar → GfpScalar
interpolate n x y p = sum n (λ i. basis n x i p ⊗ y i)

pub IsPoly-sum :
    (m n : ℕ) (f : ℕ → GfpScalar → GfpScalar)
    → ((i : ℕ) → i < m → IsPoly n (f i))
    → IsPoly n (λ p. sum m (λ i. f i p))
unfolding sum
IsPoly-sum zero n f h = IsPoly-zero n
IsPoly-sum (suc m) n f h =
    IsPoly-⊕ n (f 0) _ (h 0 (omega arith))
      (IsPoly-sum m n (λ i. f (suc i)) (λ i hi. h (suc i) (omega arith)))

pub IsPoly-interpolate : (n : ℕ) (x y : ℕ → GfpScalar) → IsPoly n (interpolate n x y)
IsPoly-interpolate n x y = IsPoly-sum n n _ (λ i hi.
    subst (IsPoly n) (fun_ext (λ p. ⊗_comm (y i) _))
      (IsPoly-scale n (y i) _ (IsPoly-basis n i x hi)))

-- The polynomial takes the values at the points.
pub interpolate_value :
    (n : ℕ) (x y : ℕ → GfpScalar) → Distinct n x → (j : ℕ) → j < n → interpolate n x y (x j) ≡ y j
interpolate_value n x y distinct j hj =
    sum_single n (λ i. basis n x i (x j) ⊗ y i) j hj
      (λ i hi ne.
        ap (λ (s : GfpScalar). s ⊗ y i) (basis_other n x i j hj (λ e. ne (sym e))) ∙ zero-⊗ _)
    ∙ ap (λ (s : GfpScalar). s ⊗ y j) (basis_self n x j distinct hj)
    ∙ one-⊗ (y j)

-- Lagrange interpolation is exact on polynomials with `n` coefficients.
pub interpolate_exact :
    (n : ℕ) (x : ℕ → GfpScalar) (g : GfpScalar → GfpScalar)
    → Distinct n x
    → IsPoly n g
    → (p : GfpScalar) → sum n (λ i. basis n x i p ⊗ g (x i)) ≡ g p
interpolate_exact n x g distinct hg =
    IsPoly-unique n (interpolate n x (λ i. g (x i))) g x (IsPoly-interpolate n x (λ i. g (x i))) hg
      (λ i j lt hj. distinct i j (omega arith) hj (omega arith))
      (interpolate_value n x (λ i. g (x i)) distinct)

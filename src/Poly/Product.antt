-- ===== src/Poly/Product.antt =====
-- The product of two polynomials, whose degree is the sum of theirs.
use linux_copy.Common.{ℕ, zero, suc, ◌+◌, ◌*◌, ◌≡◌, ap, ◌∙◌, sym, subst, fun_ext, arith}
use linux_copy.Gfp.{GfpScalar, gfp, ◌⊕◌, ◌⊗◌}
use linux_copy.Gfp.Ring.{⊗_comm, ⊗_assoc, ⊗-⊕, zero-⊗}
use linux_copy.Poly.Eval.{
  eval, IsPoly, IsPoly-zero, IsPoly-pad, IsPoly-⊕, IsPoly-scale, IsPoly-shift,
}

pub IsPoly-pad_more : (k n : ℕ) (g : GfpScalar → GfpScalar) → IsPoly n g → IsPoly (k + n) g
IsPoly-pad_more zero n g h = subst (λ m. IsPoly m g) {x = n} {y = 0 + n} (omega arith) h
IsPoly-pad_more (suc k) n g h =
    subst (λ m. IsPoly m g) {x = suc (k + n)} {y = suc k + n} (omega arith)
      (IsPoly-pad (k + n) g (IsPoly-pad_more k n g h))

product_of :
    (m n : ℕ) (c : ℕ → GfpScalar) (g : GfpScalar → GfpScalar)
    → IsPoly (suc n) g
    → IsPoly (m + n) (λ p. eval m c p ⊗ g p)
unfolding eval
product_of zero n c g h =
    subst (λ m. IsPoly m (λ p. gfp 0 ⊗ g p)) {x = n} {y = 0 + n} (omega arith)
      (subst (IsPoly n) (fun_ext (λ p. sym (zero-⊗ (g p)))) (IsPoly-zero n))
product_of (suc m) n c g h =
    subst (λ k. IsPoly k (λ p. (c 0 ⊕ p ⊗ eval m (λ k. c (suc k)) p) ⊗ g p)) {x = suc (m + n)}
      {y = suc m + n} (omega arith)
      (subst (IsPoly (suc (m + n))) (fun_ext (λ p. sym (split p))) (
        IsPoly-⊕ (suc (m + n)) (λ p. c 0 ⊗ g p) (λ p. p ⊗ (eval m (λ k. c (suc k)) p ⊗ g p))
          (IsPoly-scale (suc (m + n)) (c 0) g (
            subst (λ k. IsPoly k g) {x = m + suc n} {y = suc (m + n)} (omega arith)
              (IsPoly-pad_more m (suc n) g h)))
          (IsPoly-shift (m + n) (λ p. eval m (λ k. c (suc k)) p ⊗ g p)
            (product_of m n (λ k. c (suc k)) g h))))
  where
    split :
        (p : GfpScalar)
        → (c 0 ⊕ p ⊗ eval m (λ k. c (suc k)) p) ⊗ g p
          ≡ c 0 ⊗ g p ⊕ p ⊗ (eval m (λ k. c (suc k)) p ⊗ g p)
    split p =
        ⊗_comm _ (g p)
        ∙ ⊗-⊕ (g p) (c 0) _
        ∙ simp (⊗_comm (g p) (c 0), ⊗_comm (g p) (p ⊗ eval m (λ k. c (suc k)) p))
            (ap (λ (t : GfpScalar). c 0 ⊗ g p ⊕ t) (⊗_assoc p (eval m (λ k. c (suc k)) p) (g p)))

-- A product of two polynomials of degree `d` is one of degree `2 d`.
pub IsPoly-⊗ :
    (d : ℕ) (f g : GfpScalar → GfpScalar)
    → IsPoly (suc d) f
    → IsPoly (suc d) g
    → IsPoly (suc (d * 2)) (λ p. f p ⊗ g p)
IsPoly-⊗ d f g (c, e) h =
    subst (λ k. IsPoly k (λ p. f p ⊗ g p)) {x = suc d + d} {y = suc (d * 2)} (omega arith)
      (subst (IsPoly (suc d + d)) (fun_ext (λ p. ap (λ (t : GfpScalar). t ⊗ g p) (sym (e p))))
        (product_of (suc d) d c g h))

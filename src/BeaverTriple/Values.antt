-- ===== src/BeaverTriple/Values.antt =====
-- What triples are shares of, and what the operations on them do to it.
use linux_copy.Common.{ℕ, suc, ◌+◌, ◌<◌, ◌≡◌, ap, ap₂, ◌∙◌, sym, subst, fun_ext}
use linux_copy.Gfp.{GfpScalar, gfp, ◌⊕◌, ◌⊖◌, ◌⊗◌, neg}
use linux_copy.Gfp.Ring.{⊕_comm, ⊕_assoc, ⊗_comm}
use linux_copy.Gfp.Inverse.{sub_def, sub_of_add, sub-add_cancel, ⊗-⊖, ⊖-⊗, neg_one}
use linux_copy.Poly.Eval.{IsPoly, IsPoly-⊕, IsPoly-scale, IsPoly-constant}
use linux_copy.ShareBase.{ShareBase}
use linux_copy.ShareBundle.{set_shares}
use linux_copy.BeaverTriple.{BeaverTriple, mult}

pub IsPoly-⊖ :
    (n : ℕ) (f g : GfpScalar → GfpScalar) → IsPoly n f → IsPoly n g → IsPoly n (λ p. f p ⊖ g p)
IsPoly-⊖ n f g hf hg =
    subst (IsPoly n) (fun_ext (λ p. sym (sub_def (f p) (g p) ∙ ap (◌⊕◌ (f p)) (neg_one (g p)))))
      (IsPoly-⊕ n f _ hf (IsPoly-scale n (neg (gfp 1)) g hg))

pub sub-sub : (x y z : GfpScalar) → x ⊖ (y ⊖ z) ≡ (x ⊖ y) ⊕ z
sub-sub x y z = sub_of_add x (y ⊖ z) ((x ⊖ y) ⊕ z) (
    sym (sub-add_cancel x y)
    ∙ ap (◌⊕◌ (x ⊖ y)) (sym (sub-add_cancel y z) ∙ ⊕_comm (y ⊖ z) z)
    ∙ sym (⊕_assoc (x ⊖ y) z (y ⊖ z)))

pub add-sub_comm : (x y z : GfpScalar) → (x ⊕ z) ⊖ y ≡ (x ⊖ y) ⊕ z
add-sub_comm x y z = sub_of_add (x ⊕ z) y ((x ⊖ y) ⊕ z) (
    ap (λ (t : GfpScalar). t ⊕ z) (sym (sub-add_cancel x y))
    ∙ ⊕_assoc (x ⊖ y) y z
    ∙ ap (◌⊕◌ (x ⊖ y)) (⊕_comm y z)
    ∙ sym (⊕_assoc (x ⊖ y) z y))

-- The triples of the parties share `x` and `y`.
pub record IsTriple (t n : ℕ) (triples : ℕ → BeaverTriple) (x y : ℕ → GfpScalar) : Type 0 where
  pub a : ℕ → GfpScalar → GfpScalar
  pub b : ℕ → GfpScalar → GfpScalar
  pub c : ℕ → GfpScalar → GfpScalar
  pub u : ℕ → GfpScalar
  pub v : ℕ → GfpScalar
  pub a_poly : (e : ℕ) → e < n → IsPoly (suc t) (a e)
  pub b_poly : (e : ℕ) → e < n → IsPoly (suc t) (b e)
  pub c_poly : (e : ℕ) → e < n → IsPoly (suc t) (c e)
  pub product : (e : ℕ) → e < n → c e (gfp 0) ≡ a e (gfp 0) ⊗ b e (gfp 0)
  pub x_value : (e : ℕ) → e < n → u e ⊖ a e (gfp 0) ≡ x e
  pub y_value : (e : ℕ) → e < n → v e ⊖ b e (gfp 0) ≡ y e
  pub a_share : (i e : ℕ) → e < n → (triples i).a.shares e ≡ a e (gfp (i + 1))
  pub b_share : (i e : ℕ) → e < n → (triples i).b.shares e ≡ b e (gfp (i + 1))
  pub c_share : (i e : ℕ) → e < n → (triples i).c.shares e ≡ c e (gfp (i + 1))
  pub u_known : (i e : ℕ) → e < n → (triples i).u e ≡ u e
  pub v_known : (i e : ℕ) → e < n → (triples i).v e ≡ v e

-- `mult` on the triples of all the parties, which share the entries of x and of y: what they get is,
-- for each entry, the values at their points of one polynomial of degree t with the product of the
-- entries at 0.
pub mult_lem :
    (base : ShareBase) (t n : ℕ) (triples : ℕ → BeaverTriple) (x y : ℕ → GfpScalar)
    → IsTriple t n triples x y
    → (e : ℕ) → e < n
    → (g : GfpScalar → GfpScalar) × IsPoly (suc t) g
      × (g (gfp 0) ≡ x e ⊗ y e)
      × ((i : ℕ) → (mult base (triples i)).shares e ≡ g (gfp (i + 1)))
unfolding mult set_shares
mult_lem base t n triples x y h e he = (
  λ p. share (h.u e) (h.v e) (h.a e p) (h.b e p) (h.c e p),
  IsPoly-⊕ (suc t) _ (h.c e)
      (IsPoly-⊖ (suc t) _ _
        (IsPoly-⊖ (suc t) _ _ (IsPoly-constant t (h.u e ⊗ h.v e))
          (IsPoly-scale (suc t) (h.u e) (h.b e) (h.b_poly e he)))
        (IsPoly-scale (suc t) (h.v e) (h.a e) (h.a_poly e he)))
      (h.c_poly e he),
  secret,
  λ i.
      ap₂
        (λ u v.
          share u v ((triples i).a.shares e) ((triples i).b.shares e) ((triples i).c.shares e))
        (h.u_known i e he) (h.v_known i e he)
      ∙ ap₂ (λ a b. share (h.u e) (h.v e) a b ((triples i).c.shares e)) (h.a_share i e he)
          (h.b_share i e he)
      ∙ ap (share (h.u e) (h.v e) (h.a e (gfp (i + 1))) (h.b e (gfp (i + 1)))) (h.c_share i e he),
)
  where
    share : GfpScalar → GfpScalar → GfpScalar → GfpScalar → GfpScalar → GfpScalar
    share u v a b c = ((u ⊗ v ⊖ u ⊗ b) ⊖ v ⊗ a) ⊕ c

    a₀ : GfpScalar
    a₀ = h.a e (gfp 0)

    b₀ : GfpScalar
    b₀ = h.b e (gfp 0)

    secret : share (h.u e) (h.v e) a₀ b₀ (h.c e (gfp 0)) ≡ x e ⊗ y e
    secret =
        ap (share (h.u e) (h.v e) a₀ b₀) (h.product e he)
        ∙ sym (sub-sub (h.u e ⊗ h.v e ⊖ h.u e ⊗ b₀) (h.v e ⊗ a₀) (a₀ ⊗ b₀))
        ∙ ap₂ ◌⊖◌ (sym (⊗-⊖ (h.u e) (h.v e) b₀))
            (ap (λ (z : GfpScalar). z ⊖ a₀ ⊗ b₀) (⊗_comm (h.v e) a₀) ∙ sym (⊗-⊖ a₀ (h.v e) b₀))
        ∙ sym (⊖-⊗ (h.u e) a₀ (h.v e ⊖ b₀))
        ∙ ap₂ ◌⊗◌ (h.x_value e he) (h.y_value e he)

-- ===== src/BeaverTriple/Affine.antt =====
-- Affine changes of what triples share.
use linux_copy.Common.{ℕ, suc, ap, ◌∙◌, sym}
use linux_copy.Gfp.{GfpScalar, gfp, ◌⊕◌, ◌⊗◌}
use linux_copy.Gfp.Ring.{⊗_comm, ⊗_assoc}
use linux_copy.Gfp.Inverse.{⊗-⊖}
use linux_copy.Poly.Eval.{IsPoly-scale}
use linux_copy.ShareBundle.{set_shares}
use linux_copy.BeaverTriple.{BeaverTriple, x_times, x_plus, y_times, y_plus, scale_shares}
use linux_copy.BeaverTriple.Values.{IsTriple, add-sub_comm}

module _ (t n : ℕ) (triples : ℕ → BeaverTriple) (x y : ℕ → GfpScalar) (h : IsTriple t n triples x y)
    (k : GfpScalar) where
  x_times-IsTriple : IsTriple t n (λ i. x_times k (triples i)) (λ e. k ⊗ x e) y
  unfolding x_times scale_shares set_shares
  x_times-IsTriple = record {
    a = λ e p. k ⊗ h.a e p;
    b = h.b;
    c = λ e p. k ⊗ h.c e p;
    u = λ e. k ⊗ h.u e;
    v = h.v;
    a_poly = λ e he. IsPoly-scale (suc t) k (h.a e) (h.a_poly e he);
    b_poly = h.b_poly;
    c_poly = λ e he. IsPoly-scale (suc t) k (h.c e) (h.c_poly e he);
    product = λ e he. ap (◌⊗◌ k) (h.product e he) ∙ sym (⊗_assoc k (h.a e (gfp 0)) (h.b e (gfp 0)));
    x_value = λ e he. sym (⊗-⊖ k (h.u e) (h.a e (gfp 0))) ∙ ap (◌⊗◌ k) (h.x_value e he);
    y_value = h.y_value;
    a_share = λ i e he. ap (◌⊗◌ k) (h.a_share i e he);
    b_share = h.b_share;
    c_share = λ i e he. ap (◌⊗◌ k) (h.c_share i e he);
    u_known = λ i e he. ap (◌⊗◌ k) (h.u_known i e he);
    v_known = h.v_known;
  }

  x_plus-IsTriple : IsTriple t n (λ i. x_plus k (triples i)) (λ e. x e ⊕ k) y
  unfolding x_plus
  x_plus-IsTriple = record {
    a = h.a;
    b = h.b;
    c = h.c;
    u = λ e. h.u e ⊕ k;
    v = h.v;
    a_poly = h.a_poly;
    b_poly = h.b_poly;
    c_poly = h.c_poly;
    product = h.product;
    x_value = λ e he.
        add-sub_comm (h.u e) (h.a e (gfp 0)) k ∙ ap (λ (z : GfpScalar). z ⊕ k) (h.x_value e he);
    y_value = h.y_value;
    a_share = h.a_share;
    b_share = h.b_share;
    c_share = h.c_share;
    u_known = λ i e he. ap (λ (z : GfpScalar). z ⊕ k) (h.u_known i e he);
    v_known = h.v_known;
  }

  y_times-IsTriple : IsTriple t n (λ i. y_times k (triples i)) x (λ e. k ⊗ y e)
  unfolding y_times scale_shares set_shares
  y_times-IsTriple = record {
    a = h.a;
    b = λ e p. k ⊗ h.b e p;
    c = λ e p. k ⊗ h.c e p;
    u = h.u;
    v = λ e. k ⊗ h.v e;
    a_poly = h.a_poly;
    b_poly = λ e he. IsPoly-scale (suc t) k (h.b e) (h.b_poly e he);
    c_poly = λ e he. IsPoly-scale (suc t) k (h.c e) (h.c_poly e he);
    product = λ e he.
        ap (◌⊗◌ k) (h.product e he)
        ∙ sym (⊗_assoc k (h.a e (gfp 0)) (h.b e (gfp 0)))
        ∙ ap (λ (z : GfpScalar). z ⊗ h.b e (gfp 0)) (⊗_comm k (h.a e (gfp 0)))
        ∙ ⊗_assoc (h.a e (gfp 0)) k (h.b e (gfp 0));
    x_value = h.x_value;
    y_value = λ e he. sym (⊗-⊖ k (h.v e) (h.b e (gfp 0))) ∙ ap (◌⊗◌ k) (h.y_value e he);
    a_share = h.a_share;
    b_share = λ i e he. ap (◌⊗◌ k) (h.b_share i e he);
    c_share = λ i e he. ap (◌⊗◌ k) (h.c_share i e he);
    u_known = h.u_known;
    v_known = λ i e he. ap (◌⊗◌ k) (h.v_known i e he);
  }

  y_plus-IsTriple : IsTriple t n (λ i. y_plus k (triples i)) x (λ e. y e ⊕ k)
  unfolding y_plus
  y_plus-IsTriple = record {
    a = h.a;
    b = h.b;
    c = h.c;
    u = h.u;
    v = λ e. h.v e ⊕ k;
    a_poly = h.a_poly;
    b_poly = h.b_poly;
    c_poly = h.c_poly;
    product = h.product;
    x_value = h.x_value;
    y_value = λ e he.
        add-sub_comm (h.v e) (h.b e (gfp 0)) k ∙ ap (λ (z : GfpScalar). z ⊕ k) (h.y_value e he);
    a_share = h.a_share;
    b_share = h.b_share;
    c_share = h.c_share;
    u_known = h.u_known;
    v_known = λ i e he. ap (λ (z : GfpScalar). z ⊕ k) (h.v_known i e he);
  }

-- Triples of all the parties that share x and y share, after `x_times`, `x_plus`, `y_times` or
-- `y_plus` at each party with one factor or summand `k`, k x and y, x + k and y, x and k y, x and
-- y + k.
pub affine-IsTriple :
    (t n : ℕ) (triples : ℕ → BeaverTriple) (x y : ℕ → GfpScalar)
    → IsTriple t n triples x y
    → (k : GfpScalar)
    → IsTriple t n (λ i. x_times k (triples i)) (λ e. k ⊗ x e) y
      × IsTriple t n (λ i. x_plus k (triples i)) (λ e. x e ⊕ k) y
      × IsTriple t n (λ i. y_times k (triples i)) x (λ e. k ⊗ y e)
      × IsTriple t n (λ i. y_plus k (triples i)) x (λ e. y e ⊕ k)
affine-IsTriple t n triples x y h k = (
  x_times-IsTriple t n triples x y h k,
  x_plus-IsTriple t n triples x y h k,
  y_times-IsTriple t n triples x y h k,
  y_plus-IsTriple t n triples x y h k,
)

-- ===== src/Bit/Compare.antt =====
-- The joint runs of `less_than_unsigned` of shared bits and public bits.
use linux_copy.Common.{
  ℕ, suc, ◌+◌, ◌-◌, ◌*◌, ◌/◌, ◌%◌, ◌<◌, ◌≡◌, subst, fun_ext, Bool, List, get_or,
}
use linux_copy.Gfp.{GfpScalar, gfp, ◌⊕◌, ◌⊖◌, ◌⊗◌}
use linux_copy.Gfp.Ring.{⊗_comm}
use linux_copy.Poly.Eval.{IsPoly, IsPoly-constant, IsPoly-⊕, IsPoly-scale}
use linux_copy.Poly.Sum.{dot}
use linux_copy.Stream.{OctetStream}
use linux_copy.Matrix.Pack.{GfpMatrix}
use linux_copy.Network.{Proc}
use linux_copy.Network.Joint.{Joint}
use linux_copy.ShareBase.{ShareBase}
use linux_copy.Share.Reveal.{party}
use linux_copy.ShareBundle.{ShareBundle, bundle_of_shape, set_shares}
use linux_copy.ShareBundle.Reduce.Exists.{product_bundle, pairs_queue}
use linux_copy.ShareBundle.Mult.{reverse_rows, unbounded_prefix_mult}
use linux_copy.ShareBundle.Mult.Exists.{IsQuotient, row_product}
use linux_copy.BeaverTriple.Values.{IsPoly-⊖}
use linux_copy.Bit.{complement, delta, less_than_public_right}
use linux_copy.Bit.Less.{bit}

abbrev matrix : ℕ → ℕ → List GfpScalar → GfpMatrix
matrix rows cols l = record { rows = rows; cols = cols; entries = l }

-- The shares of the exclusive or, and the factors that are multiplied along the rows.
abbrev xor_at : List GfpScalar → (ℕ → GfpScalar → GfpScalar) → ℕ → GfpScalar → GfpScalar
xor_at l x e p = (x e p ⊕ get_or l e (gfp 0)) ⊖ gfp 2 ⊗ x e p ⊗ get_or l e (gfp 0)

abbrev pub factors : ℕ → List GfpScalar → (ℕ → GfpScalar → GfpScalar) → ℕ → GfpScalar → GfpScalar
factors cols l x e p = reverse_rows cols (complement (λ k. xor_at l x k p)) e

pub factors-IsPoly :
    (n cols : ℕ) (l : List GfpScalar) (x : ℕ → GfpScalar → GfpScalar)
    → ((e : ℕ) → IsPoly (suc n) (x e))
    → (e : ℕ) → IsPoly (suc n) (factors cols l x e)
unfolding reverse_rows complement
factors-IsPoly n cols l x h e = IsPoly-⊖ (suc n) _ _ (IsPoly-constant n (gfp 1)) (
    IsPoly-⊖ (suc n) _ _ (IsPoly-⊕ (suc n) (x at) _ (h at) (IsPoly-constant n (public at))) (
      subst (IsPoly (suc n)) (fun_ext (λ p. ⊗_comm (public at) (gfp 2 ⊗ x at p)))
        (IsPoly-scale (suc n) (public at) _ (IsPoly-scale (suc n) (gfp 2) (x at) (h at)))))
  where
    at : ℕ
    at = e / cols * cols + (cols - 1 - e % cols)

    public : ℕ → GfpScalar
    public k = get_or l k (gfp 0)

module _ (s : OctetStream) (c : ShareBase) (rows cols : ℕ) (l : List GfpScalar)
    (x a r : ℕ → GfpScalar → GfpScalar) (some_col : 0 < cols) (old : ℕ → ℕ → GfpScalar)
    (fresh : ℕ → ℕ → ℕ → GfpScalar) (rest : ℕ → List GfpScalar) where
  open s use {Octets}

  abbrev comparison : ℕ → Proc Octets (ShareBundle × List GfpScalar)
  comparison i =
      less_than_public_right s (party c i) (product_bundle c rows cols x old i) (matrix rows cols l)
        (pairs_queue (rows * cols) r a rest i) (fresh i)

  abbrev multiplication : ℕ → Proc Octets (ShareBundle × List GfpScalar)
  multiplication i =
      unbounded_prefix_mult s (party c i)
        (product_bundle c rows cols (factors cols l x) (λ i e. gfp 0) i)
        (pairs_queue (rows * cols) r a rest i) (fresh i)

  -- The end of the program, after the multiplication.
  compared : ShareBundle × List GfpScalar → ShareBundle × List GfpScalar
  compared res = (
    set_shares
        (λ i.
          dot cols (λ j. delta cols (complement (reverse_rows cols res.0.shares)) (i * cols + j))
            (λ j. get_or l (i * cols + j) (gfp 0)))
        (bundle_of_shape c rows 1),
    res.1,
  )

-- What the parties hold: in each row of `x` shares of the bits of `a`, in the list those of `b`.
pub record IsBits (cols rows : ℕ) (l : List GfpScalar) (x : ℕ → GfpScalar → GfpScalar)
    (a b : ℕ → ℕ → Bool) : Type 0 where
  pub shared : (row j : ℕ) → row < rows → j < cols → x (row * cols + j) (gfp 0) ≡ bit (a row j)
  pub public :
      (row j : ℕ) → row < rows → j < cols → get_or l (row * cols + j) (gfp 0) ≡ bit (b row j)

module _ (c : ShareBase) (rows cols : ℕ) (l : List GfpScalar) (x m r : ℕ → GfpScalar → GfpScalar)
    (a b : ℕ → ℕ → Bool) (bits : IsBits cols rows l x a b)
    (q : IsQuotient c rows cols (factors cols l x) m r) (row : ℕ) (hr : row < rows) where
  open c use {threshold}

  -- The polynomials of the disjunctions of the row, and of the result.
  disjunction : ℕ → GfpScalar → GfpScalar
  disjunction e p = gfp 1 ⊖ row_product cols (factors cols l x) m r row (cols - 1 - e % cols) p

  compared_row : GfpScalar → GfpScalar
  compared_row p =
      dot cols (λ j. delta cols (λ e. disjunction e p) (row * cols + j))
        (λ j. get_or l (row * cols + j) (gfp 0))

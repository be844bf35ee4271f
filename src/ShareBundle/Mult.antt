-- ===== src/ShareBundle/Mult.antt =====
-- Protocols/ShareBundle.cpp, class ShareBundle: the multiplications of unbounded fan-in, row by row,
-- and the evaluation of a tabled polynomial at each entry. The pairs for one row are shares of `b_j`
-- and of `b_{j-1} / b_j`.
pub mod Row
pub mod Exists
pub mod Func
use linux_copy.Common.{
  ℕ, zero, suc, ◌+◌, ◌-◌, ◌*◌, ◌/◌, ◌%◌, ◌==◌, if◌then◌else◌, List, get_or, Option, none, some,
  length,
}
use linux_copy.Gfp.{GfpScalar, gfp, ◌⊗◌}
use linux_copy.Poly.Sum.{dot}
use linux_copy.Stream.{OctetStream}
use linux_copy.Network.{Proc, ret, ◌>>=◌, ◌>>◌, or_abort, check}
use linux_copy.ConstMatrix.{FuncName, get_func_consts}
use linux_copy.RandomShare.{get_random_pairs}
use linux_copy.ShareBase.{ShareBase}
use linux_copy.ShareBundle.{ShareBundle, size, bundle_of_shape, double_degree, set_shares}
use linux_copy.ShareBundle.Reveal.{reveal}
use linux_copy.ShareBundle.Reduce.{pair_at}

-- `col(i) = col(i) * col(i-1)`, for one row.
unfoldable pub prefix_row : (ℕ → GfpScalar) → ℕ → GfpScalar
prefix_row a zero = a 0
prefix_row a (suc j) = a (suc j) ⊗ prefix_row a j

-- The same on the row of each entry of a matrix.
unfoldable pub prefix_columns : ℕ → (ℕ → GfpScalar) → ℕ → GfpScalar
unfolding prefix_row
prefix_columns cols m e = prefix_row (λ j. m (e / cols * cols + j)) (e % cols)

-- `rowwise().reverse()`.
unfoldable pub reverse_rows : ℕ → (ℕ → GfpScalar) → ℕ → GfpScalar
reverse_rows cols m e = m (e / cols * cols + (cols - 1 - e % cols))

-- The loop of `unbounded_mult` over the columns of one row.
unfoldable pub multiply_row : (ℕ → GfpScalar) → ℕ → ℕ → GfpScalar → GfpScalar
multiply_row a j zero prod = prod
multiply_row a j (suc left) prod = multiply_row a (suc j) left (prod ⊗ a j)

-- `powMatrixPrime`: a one before the powers of each row.
unfoldable pub with_ones : ℕ → (ℕ → GfpScalar) → ℕ → ℕ → GfpScalar
with_ones degree powers i zero = gfp 1
with_ones degree powers i (suc k) = powers (i * degree + k)

module _ (s : OctetStream) (c : ShareBase) where
  open s use {Octets}

  -- The masked factors, revealed: the first steps of the multiplications.
  unfoldable pub reveal_factors :
      ShareBundle → List (GfpScalar × GfpScalar) → (ℕ → ℕ → GfpScalar) → Proc Octets ShareBundle
  unfolding bundle_of_shape set_shares double_degree reveal
  reveal_factors self pairs fresh =
      let res = bundle_of_shape c self.rows self.cols in
      reveal s c (double_degree (set_shares (λ e. self.shares e ⊗ (pair_at pairs e).1) res)) fresh

  -- The degree of the result is left doubled.
  unfoldable pub unbounded_prefix_mult :
      ShareBundle
      → List GfpScalar
      → (ℕ → ℕ → GfpScalar)
      → Proc Octets (ShareBundle × List GfpScalar)
  unfolding reveal_factors prefix_columns size
  unbounded_prefix_mult self q fresh = do
    drawn ← or_abort (get_random_pairs (size self) q)
    res ← reveal_factors self drawn.0 fresh
    let secrets = prefix_columns res.cols res.secrets
    ret (record res { secrets = secrets; shares = λ e. secrets e ⊗ (pair_at drawn.0 e).0 }, drawn.1)

  unfoldable pub unbounded_postfix_mult :
      ShareBundle
      → List GfpScalar
      → (ℕ → ℕ → GfpScalar)
      → Proc Octets (ShareBundle × List GfpScalar)
  unfolding unbounded_prefix_mult reverse_rows set_shares bundle_of_shape
  unbounded_postfix_mult self q fresh = do
    res ←
        unbounded_prefix_mult
          (set_shares (reverse_rows self.cols self.shares) (bundle_of_shape c self.rows self.cols))
          q fresh
    ret (set_shares (reverse_rows self.cols res.0.shares) res.0, res.1)

  unfoldable pub unbounded_mult :
      ShareBundle
      → List GfpScalar
      → (ℕ → ℕ → GfpScalar)
      → Proc Octets (ShareBundle × List GfpScalar)
  unfolding reveal_factors multiply_row size set_shares bundle_of_shape
  unbounded_mult self q fresh = do
    drawn ← or_abort (get_random_pairs (size self) q)
    res ← reveal_factors self drawn.0 fresh
    ret (
      set_shares
          (λ i.
            multiply_row (λ j. res.secrets (i * self.cols + j)) 0 self.cols
              (pair_at drawn.0 (i * self.cols + (self.cols - 1))).0)
          (bundle_of_shape c self.rows 1),
      drawn.1,
    )

  -- A table that is not there, or not of the size that the product asserts, is `abort`.
  unfoldable pub eval_func :
      ShareBundle
      → FuncName
      → ℕ
      → List GfpScalar
      → (ℕ → ℕ → GfpScalar)
      → Proc Octets (ShareBundle × List GfpScalar)
  unfolding unbounded_prefix_mult with_ones size set_shares bundle_of_shape
  eval_func self fn degree q fresh = do
    func_consts ← or_abort (get_func_consts fn degree)
    pow_matrix ←
        unbounded_prefix_mult
          (set_shares (λ e. self.shares (e / degree)) (bundle_of_shape c (size self) degree)) q
          fresh
    check (length func_consts == degree + 1)
    ret (
      set_shares
          (λ i.
            dot (degree + 1) (with_ones degree pow_matrix.0.shares i)
              (λ k. gfp (get_or func_consts k 0)))
          (bundle_of_shape c self.rows self.cols),
      pow_matrix.1,
    )

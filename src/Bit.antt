-- ===== src/Bit.antt =====
-- Protocols/Bit.h and Protocols/Bit.cpp, classes Bit and BitBundle: a matrix of shared bits, each row
-- the bits of one number with the least significant first. A BitBundle is a ShareBundle. A function
-- name other than "AND" and "OR" leaves a function without a result, here `abort`.
pub mod Less
pub mod Rows
pub mod Compare
use linux_copy.Common.{
  ℕ, zero, suc, ◌+◌, ◌-◌, ◌*◌, ◌/◌, ◌%◌, ◌==◌, ltb, if◌then◌else◌, List, get_or, Option, none, some,
}
use linux_copy.Scalar.{bits_length}
use linux_copy.Gfp.{GfpScalar, gfp, ◌⊕◌, ◌⊖◌, ◌⊗◌}
use linux_copy.Poly.Sum.{dot}
use linux_copy.Stream.{OctetStream}
use linux_copy.Matrix.Pack.{GfpMatrix}
use linux_copy.Network.{Proc, ret, abort, ◌>>=◌, ◌>>◌, or_abort, check}
use linux_copy.ConstMatrix.{FuncName, or_name, and_name, xor_name}
use linux_copy.RandomShare.{get_random, get_randoms}
use linux_copy.ShareBase.{ShareBase}
use linux_copy.Matrix.Bits.{bits_coeff}
use linux_copy.ShareBundle.{ShareBundle, size, bundle_of_shape, set_shares, linear}
use linux_copy.ShareBundle.Reduce.{reduce_degree}
use linux_copy.ShareBundle.Mult.{unbounded_prefix_mult, unbounded_postfix_mult}

-- `1 - shares.array()`.
unfoldable pub complement : (ℕ → GfpScalar) → ℕ → GfpScalar
complement m e = gfp 1 ⊖ m e

-- `leftCols(narrow)` of a matrix of `wide` columns.
unfoldable pub left_cols : ℕ → ℕ → (ℕ → GfpScalar) → ℕ → GfpScalar
left_cols wide narrow m e = m (e / narrow * wide + e % narrow)

-- The first columns from a matrix of `narrow` columns, the others from one of `wide` columns.
unfoldable pub with_left_cols : ℕ → ℕ → (ℕ → GfpScalar) → (ℕ → GfpScalar) → ℕ → GfpScalar
with_left_cols wide narrow left m e =
    if ltb (e % wide) narrow then left (e / wide * narrow + e % wide) else m e

-- `deltaXor`: each column less the one after it, and the last.
unfoldable pub delta : ℕ → (ℕ → GfpScalar) → ℕ → GfpScalar
delta len m e = if e % len == len - 1 then m e else m e ⊖ m (e + 1)

-- `rField`: the numbers that the rows of bits are.
unfoldable pub number_shares : ℕ → (ℕ → GfpScalar) → ℕ → GfpScalar
unfolding bits_coeff
number_shares len bits i = dot len (λ j. bits (i * len + j)) (λ j. gfp (bits_coeff j))

module _ (s : OctetStream) (c : ShareBase) where
  open s use {Octets}

  unfoldable pub random_bits :
      ShareBundle → List GfpScalar → Proc Octets (ShareBundle × List GfpScalar)
  unfolding size set_shares get_randoms
  random_bits self q = do
    drawn ← or_abort (get_randoms (size self) q)
    ret (set_shares (λ e. get_or drawn.0 e (gfp 0)) self, drawn.1)

  -- The bits, and the shares of the numbers. The vector of weights has `BITS_LENGTH` rows.
  unfoldable pub solved_random :
      ShareBundle
      → ShareBundle
      → List GfpScalar
      → Proc Octets ((ShareBundle × ShareBundle) × List GfpScalar)
  unfolding random_bits number_shares set_shares
  solved_random self r_field q = do
    check (self.cols == bits_length)
    drawn ← random_bits self q
    ret ((drawn.0, set_shares (number_shares self.cols drawn.0.shares) r_field), drawn.1)

  -- With public bits: no message.
  unfoldable pub bitwise_xor_public : ShareBundle → GfpMatrix → Proc Octets ShareBundle
  unfolding set_shares bundle_of_shape
  bitwise_xor_public a b = do
    check (a.rows == b.rows)
    check (a.cols == b.cols)
    ret (
        set_shares (λ e. (a.shares e ⊕ linear b e) ⊖ gfp 2 ⊗ a.shares e ⊗ linear b e)
          (bundle_of_shape c a.rows a.cols))

  unfoldable pub bitwise_and_public : ShareBundle → GfpMatrix → Proc Octets ShareBundle
  unfolding set_shares bundle_of_shape
  bitwise_and_public a b = do
    check (a.rows == b.rows)
    check (a.cols == b.cols)
    ret (set_shares (λ e. a.shares e ⊗ linear b e) (bundle_of_shape c a.rows a.cols))

  -- The product of the entries, for `a` with no more columns than `b`; `part` is what becomes of it.
  unfoldable pub bitwise_ordered :
      (ShareBundle → ShareBundle → ShareBundle)
      → ShareBundle
      → ShareBundle
      → List GfpScalar
      → (ℕ → ℕ → GfpScalar)
      → (ℕ → ℕ → ℕ → GfpScalar)
      → Proc Octets (ShareBundle × List GfpScalar)
  unfolding reduce_degree left_cols with_left_cols set_shares bundle_of_shape
  bitwise_ordered part a b q fresh prngs = do
    reduced ←
        reduce_degree s c
          (set_shares (λ e. a.shares e ⊗ left_cols b.cols a.cols b.shares e)
            (bundle_of_shape c a.rows a.cols))
          q fresh prngs
    let part_res = part b reduced.0
    ret (
      if b.cols == a.cols
          then part_res
          else set_shares (with_left_cols b.cols a.cols part_res.shares b.shares)
              (bundle_of_shape c a.rows b.cols),
      reduced.1,
    )

  unfoldable pub xor_of_product : ShareBundle → ShareBundle → ShareBundle → ShareBundle
  unfolding left_cols set_shares
  xor_of_product a b product =
      set_shares (λ e. (a.shares e ⊕ left_cols b.cols a.cols b.shares e) ⊖ gfp 2 ⊗ product.shares e)
        product

  unfoldable pub bitwise_xor :
      ShareBundle
      → ShareBundle
      → List GfpScalar
      → (ℕ → ℕ → GfpScalar)
      → (ℕ → ℕ → ℕ → GfpScalar)
      → Proc Octets (ShareBundle × List GfpScalar)
  unfolding bitwise_ordered xor_of_product
  bitwise_xor a b q fresh prngs =
      check (a.rows == b.rows)
      >> (if ltb b.cols a.cols
          then bitwise_ordered (xor_of_product b) b a q fresh prngs
          else bitwise_ordered (xor_of_product a) a b q fresh prngs)

  -- The columns that only one of them has are kept.
  unfoldable pub bitwise_and :
      ShareBundle
      → ShareBundle
      → List GfpScalar
      → (ℕ → ℕ → GfpScalar)
      → (ℕ → ℕ → ℕ → GfpScalar)
      → Proc Octets (ShareBundle × List GfpScalar)
  unfolding bitwise_ordered
  bitwise_and a b q fresh prngs =
      check (a.rows == b.rows)
      >> (if ltb b.cols a.cols
          then bitwise_ordered (λ m product. product) b a q fresh prngs
          else bitwise_ordered (λ m product. product) a b q fresh prngs)

  -- The multiplication with the complement taken before and after it.
  unfoldable pub prefix_op_one_round :
      ShareBundle
      → FuncName
      → List GfpScalar
      → (ℕ → ℕ → GfpScalar)
      → Proc Octets (ShareBundle × List GfpScalar)
  unfolding unbounded_prefix_mult complement set_shares bundle_of_shape
  prefix_op_one_round self and_name q fresh = do
    res ← unbounded_prefix_mult s c self q fresh
    ret (set_shares res.0.shares (bundle_of_shape c self.rows self.cols), res.1)
  prefix_op_one_round self or_name q fresh = do
    res ←
        unbounded_prefix_mult s c
          (set_shares (complement self.shares) (bundle_of_shape c self.rows self.cols)) q fresh
    ret (set_shares (complement res.0.shares) (bundle_of_shape c self.rows self.cols), res.1)
  prefix_op_one_round self xor_name q fresh = abort

  unfoldable pub postfix_op_one_round :
      ShareBundle
      → FuncName
      → List GfpScalar
      → (ℕ → ℕ → GfpScalar)
      → Proc Octets (ShareBundle × List GfpScalar)
  unfolding unbounded_postfix_mult complement set_shares bundle_of_shape
  postfix_op_one_round self and_name q fresh = do
    res ← unbounded_postfix_mult s c self q fresh
    ret (set_shares res.0.shares (bundle_of_shape c self.rows self.cols), res.1)
  postfix_op_one_round self or_name q fresh = do
    res ←
        unbounded_postfix_mult s c
          (set_shares (complement self.shares) (bundle_of_shape c self.rows self.cols)) q fresh
    ret (set_shares (complement res.0.shares) (bundle_of_shape c self.rows self.cols), res.1)
  postfix_op_one_round self xor_name q fresh = abort

  -- What the three comparisons do after the exclusive or: the inner products of `deltaXor` and the
  -- rows of `b`, of `b_cols` columns. There is no last column without a column.
  unfoldable pub compare_rows :
      ShareBundle
      → ℕ
      → (ℕ → GfpScalar)
      → List GfpScalar
      → (ℕ → ℕ → GfpScalar)
      → Proc Octets (ShareBundle × List GfpScalar)
  unfolding postfix_op_one_round delta set_shares bundle_of_shape
  compare_rows xor_res b_cols b q fresh = do
    postfix_or ← postfix_op_one_round xor_res or_name q fresh
    check (ltb 0 xor_res.cols)
    ret (
      set_shares
          (λ i.
            dot b_cols (λ j. delta xor_res.cols postfix_or.0.shares (i * xor_res.cols + j))
              (λ j. b (i * b_cols + j)))
          (bundle_of_shape c xor_res.rows 1),
      postfix_or.1,
    )

  -- Public `b`, public `a`, and neither. One queue has the pairs for the products, another those for
  -- the multiplications of unbounded fan-in.
  unfoldable pub less_than_public_right :
      ShareBundle
      → GfpMatrix
      → List GfpScalar
      → (ℕ → ℕ → GfpScalar)
      → Proc Octets (ShareBundle × List GfpScalar)
  unfolding bitwise_xor_public compare_rows
  less_than_public_right a b q fresh = do
    xor_res ← bitwise_xor_public a b
    compare_rows xor_res b.cols (linear b) q fresh

  unfoldable pub less_than_public_left :
      GfpMatrix
      → ShareBundle
      → List GfpScalar
      → List GfpScalar
      → (ℕ → ℕ → GfpScalar)
      → (ℕ → ℕ → ℕ → GfpScalar)
      → Proc Octets (ShareBundle × List GfpScalar × List GfpScalar)
  unfolding bitwise_xor_public compare_rows reduce_degree
  less_than_public_left a b q products fresh prngs = do
    xor_res ← bitwise_xor_public b a
    compared ← compare_rows xor_res b.cols b.shares q fresh
    res ← reduce_degree s c compared.0 products fresh prngs
    ret (res.0, compared.1, res.1)

  unfoldable pub less_than_unsigned :
      ShareBundle
      → ShareBundle
      → List GfpScalar
      → List GfpScalar
      → (ℕ → ℕ → GfpScalar)
      → (ℕ → ℕ → ℕ → GfpScalar)
      → Proc Octets (ShareBundle × List GfpScalar × List GfpScalar)
  unfolding bitwise_xor compare_rows reduce_degree
  less_than_unsigned a b q products fresh prngs = do
    xor_res ← bitwise_xor a b products fresh prngs
    compared ← compare_rows xor_res.0 b.cols b.shares q fresh
    res ← reduce_degree s c compared.0 xor_res.1 fresh prngs
    ret (res.0, compared.1, res.1)

  unfoldable pub if_else :
      ShareBundle
      → ShareBundle
      → ShareBundle
      → List GfpScalar
      → (ℕ → ℕ → GfpScalar)
      → (ℕ → ℕ → ℕ → GfpScalar)
      → Proc Octets (ShareBundle × List GfpScalar)
  unfolding complement reduce_degree set_shares bundle_of_shape
  if_else self a b q fresh prngs =
      reduce_degree s c
        (set_shares (λ e. self.shares e ⊗ a.shares e ⊕ complement self.shares e ⊗ b.shares e)
          (bundle_of_shape c a.rows a.cols))
        q fresh prngs

-- ===== src/ShareBundle/Prg/Streams.antt =====
-- The streams of a matrix that is packed row by row, and a block that is unpacked into a matrix.
use native.Mathlib.Nat.{div_self, mul-le-mul_right}
use linux_copy.Common.{
  ℕ, zero, suc, ◌+◌, ◌-◌, ◌*◌, ◌/◌, ◌<◌, ◌≤◌, ◌≡◌, refl, ap, ap₂, ◌∙◌, sym, arith, if◌then◌else◌,
  List, ◌∷◌, ◌++◌, length, take, drop, tabulate, replicate, length-replicate, length-tabulate, some,
  get_or, get_or-tabulate, leb, ltb, le→leb, lt→ltb, lt→leb_false, le→ltb_false, dec_lt,
  length-drop, ◌&&◌, take_all,
}
use linux_copy.Gfp.{GfpScalar, gfp}
use linux_copy.Stream.{OctetStream}
use linux_copy.Matrix.Pack.{pack_rows, pack_row_loop, unpack_block}
use linux_copy.Matrix.Pack.Roundtrip.{contents_fresh}
use linux_copy.Matrix.Table.{
  table, take-table, drop-table, take-drop-tabulate, get_or-append_front, get_or-append_back,
}
use linux_copy.ShareBundle.{ShareBundle, shaped, stored, linear}
use linux_copy.ShareBundle.Block.{write_block}
use linux_copy.ShareBundle.Block.Streams.{octets_of}

module _ (s : OctetStream) where
  open s use {Octets, empty, append, consume}

  pack_loop-table :
      (m cols : ℕ) (f : ℕ → ℕ → GfpScalar)
      → pack_row_loop s cols (table m cols f) (replicate m empty)
        ≡ tabulate m (λ k. octets_of s cols (f k))
  unfolding pack_row_loop
  pack_loop-table zero cols f = refl
  pack_loop-table (suc m) cols f = ap₂ ◌∷◌ (ap (append empty) (take-table m cols f)) (
      ap (λ (l : List GfpScalar). pack_row_loop s cols l (replicate m empty)) (drop-table m cols f)
      ∙ pack_loop-table m cols (λ k. f (suc k)))

  one_row_each :
      (m cols first rest : ℕ) (f : ℕ → ℕ → GfpScalar)
      → first ≡ cols
      → rest ≡ cols
      → append empty (take first (table (suc m) cols f))
          ∷ pack_row_loop s rest (drop first (table (suc m) cols f)) (replicate m empty)
        ≡ tabulate (suc m) (λ k. octets_of s cols (f k))
  one_row_each m cols first rest f e e' =
      ap
        (λ n.
          append empty (take n (table (suc m) cols f))
          ∷ pack_row_loop s rest (drop n (table (suc m) cols f)) (replicate m empty))
        e
      ∙ ap₂ ◌∷◌ (ap (append empty) (take-table m cols f)) (
          ap₂ (λ n (l : List GfpScalar). pack_row_loop s n l (replicate m empty)) e'
            (drop-table m cols f)
          ∙ pack_loop-table m cols (λ k. f (suc k)))

  -- With as many streams as rows, each gets one row.
  pub pack_rows-table :
      (m cols : ℕ) (f : ℕ → ℕ → GfpScalar)
      → 0 < m
      → pack_rows s (stored m cols f) (replicate m empty)
        ≡ some (tabulate m (λ k. octets_of s cols (f k)))
  unfolding pack_rows
  pack_rows-table zero cols f h = absurd (omega arith)
  pack_rows-table (suc m) cols f h = rw (length-replicate m empty) (
      ap some (
        one_row_each m cols _ _ f
          (ap (λ n. (suc m - n * (suc m - 1)) * cols) one
            ∙ ap (λ n. n * cols) {x = suc m - 1 * (suc m - 1)} {y = 1} (omega arith)
            ∙ omega arith)
          (ap (λ n. n * cols) one ∙ omega arith)))
    where
      one : suc m / suc m ≡ 1
      one = div_self h

  pub consume-octets_of :
      (n : ℕ) (f : ℕ → GfpScalar) → (consume (octets_of s n f) n).0 ≡ tabulate n f
  consume-octets_of n f =
      s.consume_front (octets_of s n f) n
        (omega (arith, ap length (contents_fresh s (tabulate n f)), length-tabulate n f))
      ∙ ap (take n) (contents_fresh s (tabulate n f))
      ∙ take_all n (tabulate n f) (omega (arith, length-tabulate n f))

  drop-tabulate :
      (n d : ℕ) (f : ℕ → GfpScalar)
      → d ≤ n
      → drop d (tabulate n f) ≡ tabulate (n - d) (λ i. f (d + i))
  drop-tabulate n d f h =
      sym (
        take_all (n - d) (drop d (tabulate n f))
          (omega (arith, length-drop d (tabulate n f), length-tabulate n f)))
      ∙ take-drop-tabulate n d (n - d) f (omega arith)

  -- Three pieces, one after the other.
  get_or-pieces :
      (d w rest x : ℕ) (f h : ℕ → GfpScalar)
      → x < d + w + rest
      → get_or
          (tabulate d (λ i. f (0 + i)) ++ (tabulate w h ++ tabulate rest (λ i. f (d + w + i))))
          x
          (gfp 0)
        ≡ (if leb d x && ltb x (d + w) then h (x - d) else f x)
  get_or-pieces d w rest x f h hx = elim (dec_lt x d) [
    | yes before ↦ rw (lt→leb_false x d before) (
        get_or-append_front (tabulate d (λ i. f (0 + i))) _ x (gfp 0)
          (omega (arith, length-tabulate d (λ i. f (0 + i))))
        ∙ get_or-tabulate d (λ i. f (0 + i)) x (gfp 0) before
        ∙ ap f (omega arith))
    | no after ↦ rw (le→leb d x (omega arith)) (past (omega arith))
  ]
    where
      skip_first :
          d ≤ x
          → get_or
              (tabulate d (λ i. f (0 + i)) ++ (tabulate w h ++ tabulate rest (λ i. f (d + w + i))))
              x
              (gfp 0)
            ≡ get_or (tabulate w h ++ tabulate rest (λ i. f (d + w + i))) (x - d) (gfp 0)
      skip_first low =
          ap
            (λ n.
              get_or
                (tabulate d (λ i. f (0 + i))
                  ++ (tabulate w h ++ tabulate rest (λ i. f (d + w + i))))
                n (gfp 0))
            {x = x} {y = length (tabulate d (λ i. f (0 + i))) + (x - d)}
            (omega (arith, length-tabulate d (λ i. f (0 + i))))
          ∙ get_or-append_back (tabulate d (λ i. f (0 + i))) _ (x - d) (gfp 0)

      past :
          d ≤ x
          → get_or
              (tabulate d (λ i. f (0 + i)) ++ (tabulate w h ++ tabulate rest (λ i. f (d + w + i))))
              x
              (gfp 0)
            ≡ (if ltb x (d + w) then h (x - d) else f x)
      past low = elim (dec_lt x (d + w)) [
        | yes inside ↦ rw (lt→ltb x (d + w) inside) (
            skip_first low
            ∙ get_or-append_front (tabulate w h) _ (x - d) (gfp 0)
                (omega (arith, length-tabulate w h))
            ∙ get_or-tabulate w h (x - d) (gfp 0) (omega arith))
        | no after ↦ rw (le→ltb_false x (d + w) (omega arith)) (
            skip_first low
            ∙ ap (λ n. get_or (tabulate w h ++ tabulate rest (λ i. f (d + w + i))) n (gfp 0))
                {x = x - d} {y = length (tabulate w h) + (x - d - w)}
                (omega (arith, length-tabulate w h))
            ∙ get_or-append_back (tabulate w h) _ (x - d - w) (gfp 0)
            ∙ get_or-tabulate rest (λ i. f (d + w + i)) (x - d - w) (gfp 0) (omega arith)
            ∙ ap f (omega arith))
      ]

  -- To unpack a block into a matrix is to write it there.
  pub unpack_block-write_block :
      (self : ShareBundle) (f h : ℕ → GfpScalar) (start count x : ℕ)
      → start + count ≤ self.rows
      → x < self.rows * self.cols
      → linear (unpack_block s (shaped self f) start count (octets_of s (count * self.cols) h)) x
        ≡ write_block self.cols start count h f x
  unfolding unpack_block write_block
  unpack_block-write_block self f h start count x inside hx =
      let fits : (start + count) * self.cols ≤ self.rows * self.cols =
        mul-le-mul_right self.cols inside in
      ap (λ l. get_or l x (gfp 0))
        (ap₂ ◌++◌ (take-drop-tabulate (self.rows * self.cols) 0 (start * self.cols) f (omega arith))
          (ap₂ ◌++◌ (consume-octets_of (count * self.cols) h) (
            drop-tabulate (self.rows * self.cols) (start * self.cols + count * self.cols) f
              (omega arith))))
      ∙ get_or-pieces (start * self.cols) (count * self.cols)
          (self.rows * self.cols - (start * self.cols + count * self.cols)) x f h (omega arith)
      ∙ ap (λ n. if leb (start * self.cols) x && ltb x n then h (x - start * self.cols) else f x)
          {x = start * self.cols + count * self.cols} {y = (start + count) * self.cols}
          (omega arith)

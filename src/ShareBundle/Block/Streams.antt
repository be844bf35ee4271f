-- ===== src/ShareBundle/Block/Streams.antt =====
-- The streams of a matrix that is packed in blocks of rows, and of one packed row by row.
use linux_copy.Common.{
  ℕ, zero, suc, ◌+◌, ◌-◌, ◌*◌, ◌/◌, ◌<◌, ◌≤◌, ◌≡◌, refl, ap, ap₂, ◌∙◌, sym, arith, ==_iff, List, [],
  ◌∷◌, ◌++◌, drop, tabulate, replicate, length-replicate, length-tabulate, some, fun_ext,
}
use linux_copy.Gfp.{GfpScalar}
use linux_copy.Stream.{OctetStream}
use linux_copy.Matrix.Pack.{pack_rows, pack_row_loop, unpack_row_loop, unpack_row}
use linux_copy.Matrix.Pack.Roundtrip.{block_sizes, chunk}
use linux_copy.Matrix.Table.{table, take-drop-tabulate, tabulate_congr}
use linux_copy.ShareBundle.{ShareBundle, shaped, stored}
use linux_copy.ShareBundle.Block.{partition_rows}
use linux_copy.ShareBundle.Block.Partition.{start_of, count_of, start_later, count_later}

module _ {ℓ} {A : Type ℓ} where
  pub drop-drop : (m n : ℕ) (xs : List A) → drop m (drop n xs) ≡ drop (n + m) xs
  drop-drop m zero xs = ap (λ k. drop k xs) (omega arith)
  drop-drop zero (suc n) [] = ap (λ k. drop k []) {x = suc n} {y = suc n + 0} (omega arith)
  drop-drop (suc m) (suc n) [] =
      sym (ap (λ k. drop k []) {x = suc n + suc m} {y = suc (n + suc m)} (omega arith))
  drop-drop m (suc n) (x ∷ xs) =
      drop-drop m n xs ∙ ap (λ k. drop k (x ∷ xs)) {x = suc (n + m)} {y = suc n + m} (omega arith)

module _ (s : OctetStream) where
  open s use {Octets, empty, append}

  -- A stream with these elements.
  abbrev pub octets_of : ℕ → (ℕ → GfpScalar) → Octets
  octets_of n f = append empty (tabulate n f)

  pack_loop-blocks :
      (cols d k n : ℕ) (f : ℕ → GfpScalar)
      → d + k * cols ≤ n
      → pack_row_loop s cols (drop d (tabulate n f)) (replicate k empty)
        ≡ tabulate k (λ b. octets_of cols (λ x. f (d + b * cols + x)))
  unfolding pack_row_loop
  pack_loop-blocks cols d zero n f h = refl
  pack_loop-blocks cols d (suc k) n f h =
      ap₂ ◌∷◌
        (ap (append empty) (
          take-drop-tabulate n d cols f (omega arith)
          ∙ tabulate_congr cols (λ i. f (d + i)) (λ x. f (d + 0 * cols + x))
              (λ i hi. ap f (omega arith))))
        (ap (λ (l : List GfpScalar). pack_row_loop s cols l (replicate k empty))
            (drop-drop cols d (tabulate n f))
          ∙ pack_loop-blocks cols (d + cols) k n f (omega arith)
          ∙ tabulate_congr k _ _ (λ b hb. ap (append empty) (
              tabulate_congr cols _ _ (λ x hx.
                ap f {x = d + cols + b * cols + x} {y = d + suc b * cols + x} (omega arith)))))

  -- The elements of the block of a party.
  abbrev pub block_octets : ℕ → ℕ → ℕ → (ℕ → GfpScalar) → ℕ → Octets
  block_octets n rows cols f b =
      octets_of (count_of n rows b * cols) (λ x. f (start_of n rows b * cols + x))

  pub pack_rows-blocks :
      (n : ℕ) (self : ShareBundle) (f : ℕ → GfpScalar)
      → 0 < n
      → pack_rows s (shaped self f) (replicate n empty)
        ≡ some (tabulate n (block_octets n self.rows self.cols f))
  unfolding pack_rows partition_rows
  pack_rows-blocks zero self f h = absurd (omega arith)
  pack_rows-blocks (suc k) self f h = rw (length-replicate k empty) (
      ap some (
        ap₂ ◌∷◌
          (ap (append empty) (
            take-drop-tabulate (self.rows * self.cols) 0 (first * self.cols) f
              (omega (arith, covered))
            ∙ tabulate_congr (first * self.cols) (λ i. f (0 + i)) (λ i. f (0 * self.cols + i))
                (λ i hi. ap f (omega arith))))
          (pack_loop-blocks (self.rows / suc k * self.cols) (first * self.cols) k
              (self.rows * self.cols) f (omega (arith, covered))
            ∙ tabulate_congr k
                (λ b.
                  octets_of (self.rows / suc k * self.cols)
                    (λ x. f (first * self.cols + b * (self.rows / suc k * self.cols) + x)))
                (λ b. block_octets (suc k) self.rows self.cols f (suc b))
                (λ b hb.
                  ap₂ octets_of
                    (ap (λ (t : ℕ). t * self.cols) (sym (count_later (suc k) self.rows h b)))
                    (fun_ext (λ x. ap f (
                      omega (
                        arith,
                        ap (λ (t : ℕ). t * self.cols) (start_later (suc k) self.rows h b),
                      ))))))))
    where
      first : ℕ
      first = self.rows - self.rows / suc k * (suc k - 1)

      covered : first * self.cols + k * (self.rows / suc k * self.cols) ≡ self.rows * self.cols
      covered = omega (arith, ap (λ (t : ℕ). t * self.cols) (block_sizes s self.rows k))

  pub unpack_loop-table :
      (m cols : ℕ) (h : ℕ → ℕ → GfpScalar) (old : List GfpScalar)
      → unpack_row_loop s cols old (tabulate m (λ k. octets_of cols (h k))) ≡ table m cols h
  unfolding unpack_row_loop
  unpack_loop-table zero cols h old = refl
  unpack_loop-table (suc m) cols h old =
      ap₂ ◌++◌ (chunk s cols old (tabulate cols (h 0)) (length-tabulate cols (h 0)))
        (unpack_loop-table m cols (λ k. h (suc k)) (drop cols old))

  pub unpack_row-table :
      (m cols : ℕ) (h fresh : ℕ → ℕ → GfpScalar)
      → unpack_row s (stored m cols fresh) (tabulate m (λ k. octets_of cols (h k)))
        ≡ some (stored m cols h)
  unfolding unpack_row
  unpack_row-table m cols h fresh =
      rw ((==_iff m _).1 (sym (length-tabulate m (λ k. octets_of cols (h k))))) (
        ap (λ (l : List GfpScalar). some (record { rows = m; cols = cols; entries = l }))
          (unpack_loop-table m cols h (table m cols fresh)))

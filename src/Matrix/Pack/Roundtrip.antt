-- ===== src/Matrix/Pack/Roundtrip.antt =====
-- Unpacking gives back the matrix that was packed.
use native.Mathlib.Nat.{div-mul-le_self, mul_comm}
use linux_copy.Common.{
  ℕ, zero, suc, ◌+◌, ◌-◌, ◌*◌, ◌/◌, ◌≡◌, refl, ap, ap₂, ◌∙◌, sym, arith, ◌==◌, ==_iff, Bool-cases,
  inl, inr, if◌then◌else◌, List, [], ◌∷◌, ◌++◌, length, take, drop, replicate, length-replicate,
  Bool, some, take-append-drop, length-take_le, length-drop, take_all,
}
use linux_copy.Gfp.{GfpScalar}
use linux_copy.Stream.{OctetStream}
use linux_copy.Matrix.Pack.{
  GfpMatrix, IsStored, pack_row, pack_row_loop, unpack_row, unpack_row_loop, pack_rows, unpack_rows,
}

take-nil {ℓ} :
    {A : Type ℓ} (n : ℕ) (old xs : List A) → length xs ≡ n → length xs ≡ 0 → take n old ≡ xs
take-nil zero old [] h e = refl
take-nil (suc n) old [] h e = absurd (omega arith)
take-nil n old (x ∷ xs) h e = absurd (omega arith)

module _ (s : OctetStream) where
  open s use {Octets, empty, append, consume, get_length, contents}

  pub contents_fresh : (xs : List GfpScalar) → contents (append empty xs) ≡ xs
  contents_fresh xs =
      s.contents-append empty xs ∙ ap (λ (l : List GfpScalar). l ++ xs) s.contents-empty

  -- A chunk of the stated size that was appended to a fresh stream is read back; where the chunk is
  -- empty, so is what stays.
  pub chunk :
      (n : ℕ) (old xs : List GfpScalar)
      → length xs ≡ n
      → (if get_length (append empty xs) == 0 then take n old else (consume (append empty xs) n).0)
        ≡ xs
  chunk n old xs len = elim (Bool-cases (get_length (append empty xs) == 0)) [
    | inl no_octets ↦ rw no_octets (nothing no_octets)
    | inr some_octets ↦ rw some_octets (
        s.consume_front (append empty xs) n (omega (arith, ap length (contents_fresh xs)))
        ∙ ap (take n) (contents_fresh xs)
        ∙ take_all n xs (omega arith))
  ]
    where
      nothing : (get_length (append empty xs) == 0) ≡ Bool.true → take n old ≡ xs
      nothing h = take-nil n old xs len (
          omega (
            arith,
            (==_iff (get_length (append empty xs)) 0).0 h,
            s.get_length-contents (append empty xs),
            ap length (contents_fresh xs),
          ))

  pub length-pack_row_loop :
      (cols : ℕ) (ptr : List GfpScalar) (os : List Octets)
      → length (pack_row_loop s cols ptr os) ≡ length os
  unfolding pack_row_loop
  length-pack_row_loop cols ptr [] = refl
  length-pack_row_loop cols ptr (o ∷ os) = ap suc (length-pack_row_loop cols (drop cols ptr) os)

  rows_roundtrip :
      (k cols : ℕ) (old ptr : List GfpScalar)
      → length ptr ≡ k * cols
      → unpack_row_loop s cols old (pack_row_loop s cols ptr (replicate k empty)) ≡ ptr
  unfolding unpack_row_loop pack_row_loop
  rows_roundtrip zero cols old [] h = refl
  rows_roundtrip zero cols old (x ∷ ptr) h = absurd (omega arith)
  rows_roundtrip (suc k) cols old ptr h =
      ap₂ ◌++◌ (chunk cols old (take cols ptr) (length-take_le cols ptr (omega arith))) (
        rows_roundtrip k cols (drop cols old) (drop cols ptr) (omega (arith, length-drop cols ptr)))
      ∙ take-append-drop cols ptr

  -- A stored matrix packed by rows into fresh streams, one for each row, is unpacked as it was, into
  -- a matrix of its shape with any entries.
  pub unpack_row-pack_row :
      (m : GfpMatrix) (old : List GfpScalar)
      → IsStored m
      → (os : List Octets) × (pack_row s m (replicate m.rows empty) ≡ some os)
        × (unpack_row s (record m { entries = old }) os ≡ some m)
  unfolding pack_row unpack_row
  unpack_row-pack_row m old stored = (
    pack_row_loop s m.cols m.entries (replicate m.rows empty),
    rw ((==_iff m.rows (length (replicate m.rows empty))).1 (sym (length-replicate m.rows empty))),
    rw
        ((==_iff m.rows _).1 (
          sym (
            length-pack_row_loop m.cols m.entries (replicate m.rows empty)
            ∙ length-replicate m.rows empty)))
        (ap (λ (e : List GfpScalar). some (record m { entries = e }))
          (rows_roundtrip m.rows m.cols old m.entries stored)),
  )

  -- The rows that `pack_rows` gives to the first of `k + 1` streams and to the others.
  pub block_sizes : (rows k : ℕ) → rows - rows / suc k * (suc k - 1) + k * (rows / suc k) ≡ rows
  block_sizes rows k = grind (arith, div-mul-le_self rows (suc k), mul_comm k (rows / suc k))

  -- The streams of `pack_rows`, with the number of the others written out.
  block_streams : GfpMatrix → ℕ → List Octets
  block_streams m k =
      append empty (take ((m.rows - m.rows / suc k * (suc k - 1)) * m.cols) m.entries)
      ∷ pack_row_loop s (m.rows / suc k * m.cols)
          (drop ((m.rows - m.rows / suc k * (suc k - 1)) * m.cols) m.entries) (replicate k empty)

  blocks_roundtrip :
      (first n k : ℕ) (old ptr : List GfpScalar)
      → first + k * n ≡ length ptr
      → (if get_length (append empty (take first ptr)) == 0
            then take first old
            else (consume (append empty (take first ptr)) first).0)
          ++ unpack_row_loop s n
              (drop first old)
              (pack_row_loop s n (drop first ptr) (replicate k empty))
        ≡ ptr
  blocks_roundtrip first n k old ptr h =
      ap₂ ◌++◌ (chunk first old (take first ptr) (length-take_le first ptr (omega arith))) (
        rows_roundtrip k n (drop first old) (drop first ptr) (omega (arith, length-drop first ptr)))
      ∙ take-append-drop first ptr

  -- So is a stored matrix packed in blocks of rows into any positive number of fresh streams.
  pub unpack_rows-pack_rows :
      (m : GfpMatrix) (old : List GfpScalar) (k : ℕ)
      → IsStored m
      → (os : List Octets) × (pack_rows s m (replicate (suc k) empty) ≡ some os)
        × (unpack_rows s (record m { entries = old }) os ≡ some m)
  unfolding pack_rows unpack_rows block_streams
  unpack_rows-pack_rows m old k stored = (
    block_streams m k,
    rw (length-replicate k empty),
    rw (length-pack_row_loop _ _ (replicate k empty), length-replicate k empty)
        (ap (λ (e : List GfpScalar). some (record m { entries = e }))
          (blocks_roundtrip ((m.rows - m.rows / suc k * (suc k - 1)) * m.cols)
            (m.rows / suc k * m.cols) k old m.entries
            (omega (arith, stored, ap (λ (t : ℕ). t * m.cols) (block_sizes m.rows k))))),
  )

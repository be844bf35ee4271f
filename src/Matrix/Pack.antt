-- ===== src/Matrix/Pack.antt =====
-- `pack_row`, `unpack_row`, `pack_rows`, `unpack_rows`, `pack_matrix` and `unpack_matrix` of
-- Math/gfpMatrix.h. A matrix is its number of rows and of columns and its row-major storage; the
-- pointer that the loops advance is the rest of the storage.
pub mod Roundtrip
use native.Mathlib.Nat.{div-mul-le_self}
use linux_copy.Common.{
  ℕ, zero, suc, ◌+◌, ◌-◌, ◌*◌, ◌/◌, ◌<◌, ◌≤◌, ◌≡◌, refl, ap, ap₂, ◌∙◌, sym, arith, ◌==◌, ==_ne,
  ==_iff, ==_refl, if◌then◌else◌, List, [], ◌∷◌, ◌++◌, length, take, drop, Option, none, some,
  subst,
}
use mathlib.Core.List.{append-nil}
use linux_copy.Gfp.{GfpScalar}
use linux_copy.Stream.{OctetStream}

pub record GfpMatrix : Type 0 where
  pub rows : ℕ
  pub cols : ℕ
  pub entries : List GfpScalar

-- The storage has the size that the shape says.
abbrev pub IsStored : GfpMatrix → Type 0
IsStored m = length m.entries ≡ m.rows * m.cols

module _ (s : OctetStream) where
  open s use {Octets, empty, append, consume, get_length, contents}

  unfoldable pub pack_row_loop : ℕ → List GfpScalar → List Octets → List Octets
  pack_row_loop cols ptr [] = []
  pack_row_loop cols ptr (o ∷ os) = append o (take cols ptr) ∷ pack_row_loop cols (drop cols ptr) os

  -- `none` is the failure of an assertion.
  unfoldable pub pack_row : GfpMatrix → List Octets → Option (List Octets)
  unfolding pack_row_loop
  pack_row matrix os =
      if matrix.rows == length os then some (pack_row_loop matrix.cols matrix.entries os) else none

  -- A row whose stream is empty keeps its entries.
  unfoldable pub unpack_row_loop : ℕ → List GfpScalar → List Octets → List GfpScalar
  unpack_row_loop cols ptr [] = []
  unpack_row_loop cols ptr (o ∷ os) =
      (if get_length o == 0 then take cols ptr else (consume o cols).0)
      ++ unpack_row_loop cols (drop cols ptr) os

  unfoldable pub unpack_row : GfpMatrix → List Octets → Option GfpMatrix
  unfolding unpack_row_loop
  unpack_row matrix os =
      if matrix.rows == length os
      then some (record matrix { entries = unpack_row_loop matrix.cols matrix.entries os })
      else none

  -- The block of `n_rows` rows from `start_row` on.
  unfoldable pub pack_block : GfpMatrix → ℕ → ℕ → Octets → Octets
  pack_block matrix start_row n_rows o =
      append o (take (n_rows * matrix.cols) (drop (start_row * matrix.cols) matrix.entries))

  unfoldable pub unpack_block : GfpMatrix → ℕ → ℕ → Octets → GfpMatrix
  unpack_block matrix start_row n_rows o = record matrix {
    entries =
        take (start_row * matrix.cols) matrix.entries
        ++ ((consume o (n_rows * matrix.cols)).0
            ++ drop (start_row * matrix.cols + n_rows * matrix.cols) matrix.entries);
  }

  -- `pack_rows(matrix, os)`: the first stream is given the rows that are left over.
  unfoldable pub pack_rows : GfpMatrix → List Octets → Option (List Octets)
  unfolding pack_row_loop
  pack_rows matrix [] = none
  pack_rows matrix (o ∷ os) =
      let n_rows = matrix.rows / length (o ∷ os) in
      let first_n_rows = matrix.rows - n_rows * (length (o ∷ os) - 1) in
      let first_n_gfp = first_n_rows * matrix.cols in
      let n_gfp = n_rows * matrix.cols in
      some (
        append o (take first_n_gfp matrix.entries)
        ∷ pack_row_loop n_gfp (drop first_n_gfp matrix.entries) os)

  unfoldable pub unpack_rows : GfpMatrix → List Octets → Option GfpMatrix
  unfolding unpack_row_loop
  unpack_rows matrix [] = none
  unpack_rows matrix (o ∷ os) =
      let n_rows = matrix.rows / length (o ∷ os) in
      let first_n_rows = matrix.rows - n_rows * (length (o ∷ os) - 1) in
      let first_n_gfp = first_n_rows * matrix.cols in
      let n_gfp = n_rows * matrix.cols in
      some (record matrix {
        entries =
            (if get_length o == 0
              then take first_n_gfp matrix.entries
              else (consume o first_n_gfp).0)
            ++ unpack_row_loop n_gfp (drop first_n_gfp matrix.entries) os;
      })

  unfoldable pub pack_matrix : GfpMatrix → Octets → Octets
  pack_matrix matrix o = append o matrix.entries

  unfoldable pub unpack_matrix : GfpMatrix → Octets → GfpMatrix
  unpack_matrix matrix o = record matrix { entries = (consume o (matrix.rows * matrix.cols)).0 }

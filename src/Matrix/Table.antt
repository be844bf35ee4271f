-- ===== src/Matrix/Table.antt =====
-- The entries of a matrix as a function of the row and the column, in row-major order: what the
-- packing of Math/gfpMatrix.h does to them.
use linux_copy.Common.{
  ℕ, zero, suc, ◌+◌, ◌*◌, ◌<◌, ◌≤◌, ◌≡◌, refl, ap, ap₂, ◌∙◌, sym, arith, if◌then◌else◌, List, [],
  ◌∷◌, ◌++◌, length, take, drop, tabulate, get_or, length-tabulate, length-append, get_or-tabulate,
  ltb, lt→ltb, le→ltb_false, Bool,
}
use linux_copy.Gfp.{GfpScalar, gfp}

-- The storage of the matrix with these entries.
abbrev pub table : ℕ → ℕ → (ℕ → ℕ → GfpScalar) → List GfpScalar
table zero cols f = []
table (suc rows) cols f = tabulate cols (f 0) ++ table rows cols (λ i. f (suc i))

pub length-table :
    (rows cols : ℕ) (f : ℕ → ℕ → GfpScalar) → length (table rows cols f) ≡ rows * cols
length-table zero cols f = omega arith
length-table (suc rows) cols f = omega (
  arith,
  length-append (tabulate cols (f 0)) (table rows cols (λ i. f (suc i))),
  length-tabulate cols (f 0),
  length-table rows cols (λ i. f (suc i)),
)

module _ {ℓ} {A : Type ℓ} where
  pub get_or-append_front :
      (xs ys : List A) (i : ℕ) (d : A) → i < length xs → get_or (xs ++ ys) i d ≡ get_or xs i d
  get_or-append_front [] ys i d h = elim h [ ]
  get_or-append_front (x ∷ xs) ys zero d h = refl
  get_or-append_front (x ∷ xs) ys (suc i) d h = get_or-append_front xs ys i d (omega arith)

  pub get_or-append_back :
      (xs ys : List A) (i : ℕ) (d : A) → get_or (xs ++ ys) (length xs + i) d ≡ get_or ys i d
  get_or-append_back [] ys i d = ap (λ n. get_or ys n d) (omega arith)
  get_or-append_back (x ∷ xs) ys i d =
      ap (λ n. get_or ((x ∷ xs) ++ ys) n d) {x = suc (length xs) + i} {y = suc (length xs + i)}
        (omega arith)
      ∙ get_or-append_back xs ys i d

  pub take-append : (xs ys : List A) → take (length xs) (xs ++ ys) ≡ xs
  take-append [] ys = refl
  take-append (x ∷ xs) ys = ap (◌∷◌ x) (take-append xs ys)

  pub drop-append : (xs ys : List A) → drop (length xs) (xs ++ ys) ≡ ys
  drop-append [] ys = refl
  drop-append (x ∷ xs) ys = drop-append xs ys

  pub tabulate_congr :
      (n : ℕ) (f g : ℕ → A) → ((i : ℕ) → i < n → f i ≡ g i) → tabulate n f ≡ tabulate n g
  tabulate_congr zero f g h = refl
  tabulate_congr (suc n) f g h =
      ap₂ ◌∷◌ (h 0 (omega arith))
        (tabulate_congr n (λ i. f (suc i)) (λ i. g (suc i)) (λ i hi. h (suc i) (omega arith)))

  -- A piece of the tabulated entries.
  pub take-drop-tabulate :
      (n start size : ℕ) (f : ℕ → A)
      → start + size ≤ n
      → take size (drop start (tabulate n f)) ≡ tabulate size (λ i. f (start + i))
  take-drop-tabulate n zero zero f h = refl
  take-drop-tabulate zero zero (suc size) f h = absurd (omega arith)
  take-drop-tabulate (suc n) zero (suc size) f h = ap₂ ◌∷◌ (ap f (omega arith)) (
      take-drop-tabulate n zero size (λ i. f (suc i)) (omega arith)
      ∙ tabulate_congr size (λ i. f (suc (0 + i))) (λ i. f (0 + suc i))
          (λ i hi. ap f (omega arith)))
  take-drop-tabulate zero (suc start) zero f h = refl
  take-drop-tabulate zero (suc start) (suc size) f h = absurd (omega arith)
  take-drop-tabulate (suc n) (suc start) size f h =
      take-drop-tabulate n start size (λ i. f (suc i)) (omega arith)
      ∙ tabulate_congr size (λ i. f (suc (start + i))) (λ i. f (suc start + i))
          (λ i hi. ap f (omega arith))

pub take-table :
    (rows cols : ℕ) (f : ℕ → ℕ → GfpScalar)
    → take cols (table (suc rows) cols f) ≡ tabulate cols (f 0)
take-table rows cols f =
    ap (λ n. take n (table (suc rows) cols f)) (sym (length-tabulate cols (f 0)))
    ∙ take-append (tabulate cols (f 0)) (table rows cols (λ i. f (suc i)))

pub drop-table :
    (rows cols : ℕ) (f : ℕ → ℕ → GfpScalar)
    → drop cols (table (suc rows) cols f) ≡ table rows cols (λ i. f (suc i))
drop-table rows cols f =
    ap (λ n. drop n (table (suc rows) cols f)) (sym (length-tabulate cols (f 0)))
    ∙ drop-append (tabulate cols (f 0)) (table rows cols (λ i. f (suc i)))

pub get_or-table :
    (rows cols : ℕ) (f : ℕ → ℕ → GfpScalar) (i j : ℕ)
    → i < rows
    → j < cols
    → get_or (table rows cols f) (i * cols + j) (gfp 0) ≡ f i j
get_or-table zero cols f i j hi hj = absurd (omega arith)
get_or-table (suc rows) cols f zero j hi hj =
    ap (λ n. get_or (table (suc rows) cols f) n (gfp 0)) {x = 0 * cols + j} {y = j} (omega arith)
    ∙ get_or-append_front (tabulate cols (f 0)) _ j (gfp 0)
        (omega (arith, length-tabulate cols (f 0)))
    ∙ get_or-tabulate cols (f 0) j (gfp 0) hj
get_or-table (suc rows) cols f (suc i) j hi hj =
    ap (λ n. get_or (table (suc rows) cols f) n (gfp 0)) {x = suc i * cols + j}
      {y = length (tabulate cols (f 0)) + (i * cols + j)}
      (omega (arith, length-tabulate cols (f 0)))
    ∙ get_or-append_back (tabulate cols (f 0)) (table rows cols (λ i. f (suc i))) (i * cols + j)
        (gfp 0)
    ∙ get_or-table rows cols (λ i. f (suc i)) i j (omega arith) hj

suc-ltb-suc : (a b : ℕ) → ltb (suc a) (suc b) ≡ ltb a b
suc-ltb-suc a b = ground arith

-- A list's entry, and the default past its end.
pub get_or-tabulate_all {ℓ} :
    {A : Type ℓ} (n : ℕ) (f : ℕ → A) (x : ℕ) (d : A)
    → get_or (tabulate n f) x d ≡ (if ltb x n then f x else d)
get_or-tabulate_all zero f x d = rw (le→ltb_false x 0 (omega arith)) refl
get_or-tabulate_all (suc n) f zero d = rw (lt→ltb 0 (suc n) (omega arith)) refl
get_or-tabulate_all (suc n) f (suc x) d =
    get_or-tabulate_all n (λ i. f (suc i)) x d
    ∙ ap (λ (b : Bool). if b then f (suc x) else d) (sym (suc-ltb-suc x n))

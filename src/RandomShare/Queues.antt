-- ===== src/RandomShare/Queues.antt =====
-- The queues: what is pushed in pairs is taken in pairs, and the number of bundles is enough.
use native.Mathlib.Nat.{mod-lt, mod-add-div', suc-mul}
use mathlib.Core.List.{append-nil, append_assoc}
use linux_copy.Common.{
  ℕ, zero, suc, ◌+◌, ◌-◌, ◌*◌, ◌/◌, ◌%◌, ◌<◌, ◌≤◌, ◌≡◌, refl, ap, ◌∙◌, sym, arith, ◌==◌, ==_iff,
  ==_ne, ℕ_discrete, le→leb, if◌then◌else◌, List, [], ◌∷◌, ◌++◌, length, length-append, some, take,
  drop,
}
use linux_copy.Gfp.{GfpScalar}
use linux_copy.ShareBase.{ShareBase}
use linux_copy.RandomShare.{
  get_randoms_loop, get_randoms, get_random_pairs_loop, get_random_pairs, bundles, push_pairs,
  push_rows_of_pairs,
}

randoms_loop-take :
    (num : ℕ) (q : List GfpScalar)
    → num ≤ length q
    → get_randoms_loop num q ≡ some (take num q, drop num q)
unfolding get_randoms_loop
randoms_loop-take zero q h = refl
randoms_loop-take (suc num) [] h = elim h [ ]
randoms_loop-take (suc num) (x ∷ q) h = rw (randoms_loop-take num q (omega arith))

-- When the queue has enough elements, `get_randoms` takes that many from its front, in order, and
-- leaves the rest.
pub get_randoms-take :
    (num : ℕ) (q : List GfpScalar)
    → num ≤ length q
    → get_randoms num q ≡ some (take num q, drop num q)
unfolding get_randoms
get_randoms-take num q h = rw (le→leb num (length q) h) (randoms_loop-take num q h)

-- The elements of a list of pairs, in order.
unfoldable pub flatten : List (GfpScalar × GfpScalar) → List GfpScalar
flatten [] = []
flatten ((r, aux_r) ∷ ps) = r ∷ aux_r ∷ flatten ps

flatten-append :
    (ps qs : List (GfpScalar × GfpScalar)) → flatten (ps ++ qs) ≡ flatten ps ++ flatten qs
unfolding flatten
flatten-append [] qs = refl
flatten-append (p ∷ ps) qs = ap (λ l. p.0 ∷ p.1 ∷ l) (flatten-append ps qs)

length-flatten : (ps : List (GfpScalar × GfpScalar)) → length (flatten ps) ≡ length ps * 2
unfolding flatten
length-flatten [] = refl
length-flatten (p ∷ ps) = omega (arith, length-flatten ps)

pairs_loop-flatten :
    (ps : List (GfpScalar × GfpScalar)) (q : List GfpScalar)
    → get_random_pairs_loop (length ps) (flatten ps ++ q) ≡ some (ps, q)
unfolding flatten get_random_pairs_loop
pairs_loop-flatten [] q = refl
pairs_loop-flatten (p ∷ ps) q = rw (pairs_loop-flatten ps q)

pub get_random_pairs-flatten :
    (ps : List (GfpScalar × GfpScalar)) (q : List GfpScalar)
    → get_random_pairs (length ps) (flatten ps ++ q) ≡ some (ps, q)
unfolding get_random_pairs
get_random_pairs-flatten ps q =
    rw
      (le→leb (length ps * 2) (length (flatten ps ++ q))
        (omega (arith, length-append (flatten ps) q, length-flatten ps)))
      (pairs_loop-flatten ps q)

-- The pairs of a row: the entries of the first half with those of the second.
unfoldable pub row_pairs : (ℕ → GfpScalar) → ℕ → ℕ → ℕ → List (GfpScalar × GfpScalar)
row_pairs row j k zero = []
row_pairs row j k (suc left) = (row j, row k) ∷ row_pairs row (suc j) (suc k) left

unfoldable pub matrix_pairs : (ℕ → ℕ → GfpScalar) → ℕ → ℕ → ℕ → List (GfpScalar × GfpScalar)
unfolding row_pairs
matrix_pairs extracted bundle_size i zero = []
matrix_pairs extracted bundle_size i (suc left) =
    row_pairs (extracted i) 0 bundle_size bundle_size
    ++ matrix_pairs extracted bundle_size (suc i) left

push_pairs-flatten :
    (row : ℕ → GfpScalar) (j k left : ℕ) (q : List GfpScalar)
    → push_pairs row j k left q ≡ q ++ flatten (row_pairs row j k left)
unfolding push_pairs row_pairs flatten
push_pairs-flatten row j k zero q = sym (append-nil q)
push_pairs-flatten row j k (suc left) q =
    push_pairs-flatten row (suc j) (suc k) left _
    ∙ append_assoc q (row j ∷ row k ∷ []) (flatten (row_pairs row (suc j) (suc k) left))

push_rows-flatten :
    (extracted : ℕ → ℕ → GfpScalar) (bundle_size i left : ℕ) (q : List GfpScalar)
    → push_rows_of_pairs extracted bundle_size i left q
      ≡ q ++ flatten (matrix_pairs extracted bundle_size i left)
unfolding push_rows_of_pairs matrix_pairs flatten
push_rows-flatten extracted bundle_size i zero q = sym (append-nil q)
push_rows-flatten extracted bundle_size i (suc left) q =
    push_rows-flatten extracted bundle_size (suc i) left _
    ∙ ap (λ l. l ++ flatten (matrix_pairs extracted bundle_size (suc i) left))
        (push_pairs-flatten (extracted i) 0 bundle_size bundle_size q)
    ∙ append_assoc q _ _
    ∙ ap (◌++◌ q) (sym (flatten-append (row_pairs (extracted i) 0 bundle_size bundle_size) _))

-- The double sharings that `generate_reduced_random_sharings` pushes into an empty queue come out of
-- `get_random_pairs` as the pairs of the t-sharing and the 2t-sharing of the same matrix entry, row
-- by row, and nothing is left.
pub get_random_pairs-push_rows_of_pairs :
    (extracted : ℕ → ℕ → GfpScalar) (bundle_size rows : ℕ)
    → get_random_pairs
        (length (matrix_pairs extracted bundle_size 0 rows))
        (push_rows_of_pairs extracted bundle_size 0 rows [])
      ≡ some (matrix_pairs extracted bundle_size 0 rows, [])
get_random_pairs-push_rows_of_pairs extracted bundle_size rows =
    ap (get_random_pairs (length (matrix_pairs extracted bundle_size 0 rows)))
      (push_rows-flatten extracted bundle_size 0 rows [] ∙ sym (append-nil _))
    ∙ get_random_pairs-flatten (matrix_pairs extracted bundle_size 0 rows) []

rounded_up :
    (num d : ℕ)
    → 0 < d
    → (num ≤ (if num % d == 0 then num / d else num / d + 1) * d)
      × ((if num % d == 0 then num / d else num / d + 1) * d < num + d)
rounded_up num d h = elim (ℕ_discrete (num % d) 0) [
  | yes e ↦
      rw ((==_iff (num % d) 0).1 e)
        (omega (arith, mod-add-div' num d), omega (arith, mod-add-div' num d))
  | no ne ↦ rw (==_ne (num % d) 0 ne) (
    omega (arith, mod-add-div' num d, mod-lt num h, suc-mul (num / d) d),
    omega (arith, mod-add-div' num d, mod-lt num h, suc-mul (num / d) d),
  )
]

-- With fewer corrupted players than players, the bundles are enough for the number that is asked
-- for, and one fewer is not.
pub bundles-enough :
    (c : ShareBase) (num : ℕ)
    → c.threshold < c.n_players
    → (num ≤ bundles c num * (c.n_players - c.threshold))
      × (bundles c num * (c.n_players - c.threshold) < num + (c.n_players - c.threshold))
unfolding bundles
bundles-enough c num h = rounded_up num (c.n_players - c.threshold) (omega arith)

-- ===== src/ShareBundle/Block/Partition.antt =====
-- `ShareBundle::partition_rows`: the blocks of the parties cover the rows, one after the other, and
-- they are the blocks of `pack_rows`.
use native.Mathlib.Nat.{div-mul-le_self, mul-le-mul_left, mul-suc}
use linux_copy.Common.{
  ℕ, zero, suc, ◌+◌, ◌-◌, ◌*◌, ◌/◌, ◌<◌, ◌≤◌, ◌≡◌, refl, ap, ◌∙◌, arith, ==_ne, dec_lt, dec_le,
}
use linux_copy.ShareBundle.Block.{partition_rows}

abbrev pub start_of : ℕ → ℕ → ℕ → ℕ
start_of n rows b = (partition_rows n rows b).0

abbrev pub count_of : ℕ → ℕ → ℕ → ℕ
count_of n rows b = (partition_rows n rows b).1

mul-pred : (a n : ℕ) → 0 < n → a * (n - 1) + a ≡ a * n
mul-pred a zero h = absurd (omega arith)
mul-pred a (suc k) h =
    omega (arith, mul-suc a k, ap (λ (t : ℕ). a * t) {x = suc k - 1} {y = k} (omega arith))

module _ (n rows : ℕ) (some_party : 0 < n) where
  whole : rows / n * (n - 1) + rows / n ≤ rows
  whole = omega (arith, mul-pred (rows / n) n some_party, div-mul-le_self rows n)

  pub start_later : (b : ℕ) → start_of n rows (suc b) ≡ rows - rows / n * (n - 1) + rows / n * b
  unfolding partition_rows
  start_later b =
      rw (start_of, ==_ne (suc b) 0 (omega arith))
        (ap (λ (k : ℕ). rows - rows / n * (n - 1) + rows / n * k) {x = suc b - 1} {y = b}
          (omega arith))

  pub count_later : (b : ℕ) → count_of n rows (suc b) ≡ rows / n
  unfolding partition_rows
  count_later b = rw (count_of, ==_ne (suc b) 0 (omega arith)) refl

  -- Each block starts where the one before it ends.
  pub start-suc : (b : ℕ) → start_of n rows (suc b) ≡ start_of n rows b + count_of n rows b
  unfolding partition_rows
  start-suc zero = omega (arith, start_later 0)
  start-suc (suc b) =
      omega (arith, start_later b, start_later (suc b), count_later b, mul-suc (rows / n) b)

  pub block-inside : (b : ℕ) → b < n → start_of n rows b + count_of n rows b ≤ rows
  unfolding partition_rows
  block-inside zero h = omega (arith, whole)
  block-inside (suc b) h = omega (
    arith,
    start_later b,
    count_later b,
    whole,
    mul-suc (rows / n) b,
    mul-le-mul_left {m = suc b} {n = n - 1} (rows / n) (omega arith),
  )

  pub start-le : (b : ℕ) → b ≤ n → start_of n rows b ≤ rows
  start-le zero h = unfold partition_rows in omega arith
  start-le (suc b) h = omega (arith, start-suc b, block-inside b (omega arith))

  -- The last block ends with the last row.
  pub start-last : start_of n rows n ≡ rows
  start-last =
      ap (start_of n rows) {x = n} {y = suc (n - 1)} (omega arith)
      ∙ start_later (n - 1)
      ∙ omega (arith, whole)

  pub start_mono : (a b : ℕ) → a ≤ b → start_of n rows a ≤ start_of n rows b
  start_mono a zero h = omega (arith, ap (start_of n rows) {x = a} {y = 0} (omega arith))
  start_mono a (suc b) h = elim (dec_le a b) [
    | yes below ↦ omega (arith, start_mono a b below, start-suc b)
    | no above ↦ omega (arith, ap (start_of n rows) {x = a} {y = suc b} (omega arith))
  ]

  abbrev pub HasRow : ℕ → ℕ → Type 0
  HasRow b row = (start_of n rows b ≤ row) × (row < start_of n rows b + count_of n rows b)

  -- The block of a row, among the first `m`.
  find_block : (m row : ℕ) → m ≤ n → row < start_of n rows m → (b : ℕ) × (b < m) × HasRow b row
  unfolding partition_rows
  find_block zero row le lt = absurd (omega arith)
  find_block (suc m) row le lt = elim (dec_lt row (start_of n rows m)) [
    | yes before ↦
        let (b, below, here) = find_block m row (omega arith) before in (b, omega arith, here)
    | no here ↦ (m, omega arith, (omega arith, omega (arith, start-suc m)))
  ]

  one_block : (a b row : ℕ) → HasRow a row → HasRow b row → b ≤ a
  one_block a b row (low, high) (low', high') = elim (dec_le b a) [
    | yes le ↦ le
    | no gt ↦ absurd (omega (arith, start-suc a, start_mono (suc a) b (omega arith)))
  ]

-- `ShareBundle::partition_rows` with at least one party: the block of each party is inside the
-- matrix, and each row is in the block of exactly one party.
pub partition_rows-partition :
    (n rows : ℕ)
    → 0 < n
    → ((b : ℕ) → b < n → (partition_rows n rows b).0 + (partition_rows n rows b).1 ≤ rows)
      × ((row : ℕ)
          → row < rows
          → (b : ℕ) × (b < n)
            × ((partition_rows n rows b).0 ≤ row)
            × (row < (partition_rows n rows b).0 + (partition_rows n rows b).1)
            × ((a : ℕ)
                → (partition_rows n rows a).0 ≤ row
                → row < (partition_rows n rows a).0 + (partition_rows n rows a).1
                → a ≡ b))
partition_rows-partition n rows h = (
  block-inside n rows h,
  λ row hr.
      let (b, below, here) =
        find_block n rows h n row (omega arith) (omega (arith, start-last n rows h)) in
      (
        b,
        below,
        here.0,
        here.1,
        λ a low high. omega (
          arith,
          one_block n rows h a b row (low, high) here,
          one_block n rows h b a row here (low, high),
        ),
      ),
)

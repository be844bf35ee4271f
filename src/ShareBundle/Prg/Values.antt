-- ===== src/ShareBundle/Prg/Values.antt =====
-- What the parties hold after `ShareBundle::input_blocks_dispersed_PRG`: a sharing of each entry.
use linux_copy.Common.{
  ℕ, zero, suc, ◌+◌, ◌-◌, ◌*◌, ◌<◌, ◌≤◌, ◌≡◌, ap, ◌∙◌, sym, arith, ℕ_discrete, dec_lt, subst,
}
use linux_copy.Gfp.{GfpScalar, gfp}
use linux_copy.Poly.Eval.{IsPoly}
use linux_copy.Stream.{OctetStream}
use linux_copy.ShareBase.{ShareBase}
use linux_copy.Share.Reveal.{party}
use linux_copy.ShareBundle.Block.{partition_rows}
use linux_copy.ShareBundle.Block.Partition.{start_of, count_of, start-suc, start-last, block-inside}
use linux_copy.Network.Joint.{Joint}
use linux_copy.ShareBundle.{ShareBundle}
use linux_copy.ShareBundle.Prg.Blocks.{input_blocks_dispersed_prg}
use native.Mathlib.Nat.{mul-le-mul_right}
use linux_copy.ShareBundle.Prg.{own_t_shares}
use linux_copy.ShareBundle.Prg.Deal.{
  IsDealt, dealt, dealt-own, dealt-IsPoly, dealt-secret, block_secret,
}
use linux_copy.ShareBundle.Prg.Settle.{settled-value, settled-own, write_block-inside}
use linux_copy.ShareBundle.Prg.Exists.{input_shares, input_bundle, input_blocks-Joint}

-- Each entry is in the block of some party.
pub block_of :
    (n rows cols x : ℕ)
    → 0 < n
    → x < rows * cols
    → (b : ℕ) × (b < n)
      × (start_of n rows b * cols ≤ x)
      × (x < (start_of n rows b + count_of n rows b) * cols)
unfolding partition_rows
block_of n rows cols x hn hx =
    search n (omega arith) (omega (arith, ap (λ (t : ℕ). t * cols) (start-last n rows hn)))
  where
    search :
        (m : ℕ)
        → m ≤ n
        → x < start_of n rows m * cols
        → (b : ℕ) × (b < n)
          × (start_of n rows b * cols ≤ x)
          × (x < (start_of n rows b + count_of n rows b) * cols)
    search zero le lt = absurd (omega arith)
    search (suc m) le lt = elim (dec_lt x (start_of n rows m * cols)) [
      | yes before ↦ search m (omega arith) before
      | no here ↦ (
        m,
        omega arith,
        omega arith,
        omega (arith, ap (λ (t : ℕ). t * cols) (start-suc n rows hn m)),
      )
    ]

module _ (s : OctetStream) (c : ShareBase) (rows cols : ℕ) (h : IsDealt c)
    (secrets : ℕ → ℕ → GfpScalar) (prngs : ℕ → ℕ → ℕ → GfpScalar) (old : ℕ → ℕ → GfpScalar) where
  own_block_value :
      (i x : ℕ)
      → i < c.n_players
      → x < rows * cols
      → (start_of c.n_players rows i * cols ≤ x)
        × (x < (start_of c.n_players rows i + count_of c.n_players rows i) * cols)
      → input_shares s c rows cols h secrets prngs old i x
        ≡ dealt s c rows cols h secrets prngs i
            (x - start_of c.n_players rows i * cols)
            (gfp (i + 1))
  unfolding input_shares
  own_block_value i x hi hx (low, high) =
      settled-own s c (input_bundle s c rows cols h secrets prngs old i (old i)) h secrets prngs i
        hi c.n_players 0 x _ (omega arith) hx (low, high)
      ∙ write_block-inside cols (start_of c.n_players rows i) (count_of c.n_players rows i) x
          (own_t_shares (party c i) c.threshold (block_secret s c rows cols h secrets prngs i)
            (prngs i))
          (old i) low high
      ∙ dealt-own s c rows cols h secrets prngs i (x - start_of c.n_players rows i * cols) hi

  -- A party's share of an entry is the value of the dealt polynomial at the party's point.
  pub input_shares-dealt :
      (i b x : ℕ)
      → i < c.n_players
      → b < c.n_players
      → x < rows * cols
      → (start_of c.n_players rows b * cols ≤ x)
        × (x < (start_of c.n_players rows b + count_of c.n_players rows b) * cols)
      → input_shares s c rows cols h secrets prngs old i x
        ≡ dealt s c rows cols h secrets prngs b
            (x - start_of c.n_players rows b * cols)
            (gfp (i + 1))
  unfolding input_shares
  input_shares-dealt i b x hi hb hx here = elim (ℕ_discrete b i) [
    | no ne ↦
        settled-value s c (input_bundle s c rows cols h secrets prngs old i (old i)) h secrets prngs
          i hi c.n_players 0 b x _ (omega arith) hx here (omega arith) (omega arith) ne
    | yes own ↦
        subst
          (λ k.
            (start_of c.n_players rows k * cols ≤ x)
              × (x < (start_of c.n_players rows k + count_of c.n_players rows k) * cols)
            → input_shares s c rows cols h secrets prngs old i x
              ≡ dealt s c rows cols h secrets prngs k (x - start_of c.n_players rows k * cols)
                  (gfp (i + 1)))
          (sym own) (own_block_value i x hi hx) here
  ]

-- The input of blocks with the agreed generator, `ShareBundle::input_blocks_dispersed_PRG`, among
-- 2t + 1 parties, on bundles of degree t of one shape. There are runs of all the parties that deliver
-- to each what was sent to it and in which each returns. The parties then hold, for each entry of the
-- block of rows that `partition_rows` gives a party, the values at their points of one polynomial of
-- degree t with that party's secret at 0.
pub input_blocks_dispersed_prg-Joint :
    (s : OctetStream) (c : ShareBase) (rows cols : ℕ) (h : IsDealt c) (secrets : ℕ → ℕ → GfpScalar)
    (prngs : ℕ → ℕ → ℕ → GfpScalar) (old : ℕ → ℕ → GfpScalar)
    → (results : ℕ → ShareBundle) × Joint s.Octets ShareBundle c.n_players
        (λ i.
          input_blocks_dispersed_prg s
            (party c i)
            (input_bundle s c rows cols h secrets prngs old i (old i))
            prngs)
        results
      × ((b e : ℕ)
          → b < c.n_players
          → (partition_rows c.n_players rows b).0 * cols ≤ e
          → e
            < ((partition_rows c.n_players rows b).0 + (partition_rows c.n_players rows b).1) * cols
          → (y : GfpScalar → GfpScalar) × IsPoly (suc c.threshold) y
            × (y (gfp 0) ≡ secrets b e)
            × ((i : ℕ) → i < c.n_players → (results i).shares e ≡ y (gfp (i + 1))))
input_blocks_dispersed_prg-Joint s c rows cols h secrets prngs old = (
  λ i.
      input_bundle s c rows cols h secrets prngs old i
        (input_shares s c rows cols h secrets prngs old i),
  input_blocks-Joint s c rows cols h secrets prngs old,
  λ b e hb low high.
      let place = e - start_of c.n_players rows b * cols in
      (
        dealt s c rows cols h secrets prngs b place,
        subst (λ n. IsPoly n (dealt s c rows cols h secrets prngs b place)) {x = c.threshold + 1}
            {y = suc c.threshold} (omega arith)
            (dealt-IsPoly s c rows cols h secrets prngs b place),
        dealt-secret s c rows cols h secrets prngs b place
            ∙ ap (secrets b) {x = start_of c.n_players rows b * cols + place} {y = e}
                (omega (arith, low)),
        λ i hi.
            input_shares-dealt s c rows cols h secrets prngs old i b e hi hb
              (omega (
                arith,
                high,
                mul-le-mul_right cols (block-inside c.n_players rows h.base.valid.some_player b hb),
              ))
              (low, high),
      ),
)

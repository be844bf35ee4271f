-- ===== src/ShareBundle/Prg/Settle.antt =====
-- The shares that a party ends with when all the blocks are dealt: each is the value of the dealt
-- polynomial at the party's point.
use linux_copy.Common.{
  ℕ, zero, suc, ◌+◌, ◌-◌, ◌*◌, ◌<◌, ◌≤◌, ◌≡◌, ◌≢◌, ◌⊎◌, refl, ap, ◌∙◌, arith, ==_ne, ==_iff,
  ==_refl, Bool-cases, inl, inr, le→leb, lt→ltb, lt→leb_false, dec_le, dec_lt, ℕ_discrete,
  le→ltb_false, true,
}
use linux_copy.Gfp.{GfpScalar, gfp}
use linux_copy.Stream.{OctetStream}
use linux_copy.ShareBase.{ShareBase}
use linux_copy.Share.Prg.{has_prng_share}
use linux_copy.ShareBundle.{ShareBundle}
use linux_copy.ShareBundle.Block.{write_block}
use linux_copy.ShareBundle.Block.Partition.{start_of, count_of, block-inside}
use linux_copy.ShareBundle.Prg.Streams.{unpack_block-write_block}
use linux_copy.ShareBundle.Prg.Deal.{
  IsDealt, start, dealt, dealt-prng, settle, settled, InBlock, one_block, has_prng,
}

pub write_block-inside :
    (cols start n x : ℕ) (new old : ℕ → GfpScalar)
    → start * cols ≤ x
    → x < (start + n) * cols
    → write_block cols start n new old x ≡ new (x - start * cols)
unfolding write_block
write_block-inside cols start n x new old low high =
    rw (le→leb (start * cols) x low, lt→ltb x ((start + n) * cols) high) refl

pub write_block-outside :
    (cols start n x : ℕ) (new old : ℕ → GfpScalar)
    → ¬ ((start * cols ≤ x) × (x < (start + n) * cols))
    → write_block cols start n new old x ≡ old x
unfolding write_block
write_block-outside cols start n x new old out = elim (dec_le (start * cols) x) [
  | no below ↦ rw (lt→leb_false x (start * cols) (omega arith)) refl
  | yes low ↦ rw (le→leb (start * cols) x low, le→ltb_false x ((start + n) * cols) (above low)) refl
]
  where
    above : start * cols ≤ x → (start + n) * cols ≤ x
    above low = elim (dec_lt x ((start + n) * cols)) [
      | yes high ↦ absurd (out (low, high))
      | no le ↦ omega arith
    ]

module _ (s : OctetStream) (c : ShareBase) (self : ShareBundle) (h : IsDealt c)
    (secrets : ℕ → ℕ → GfpScalar) (prngs : ℕ → ℕ → ℕ → GfpScalar) (i : ℕ)
    (hi : i < c.n_players) where
  abbrev first : ℕ → ℕ
  first b = start s c self.rows self.cols h secrets prngs b * self.cols

  abbrev value : ℕ → ℕ → GfpScalar
  value b x = dealt s c self.rows self.cols h secrets prngs b (x - first b) (gfp (i + 1))

  abbrev In : ℕ → ℕ → Type 0
  In b x = InBlock s c self.rows self.cols h secrets prngs b x

  abbrev step : ℕ → (ℕ → GfpScalar) → ℕ → GfpScalar
  step b f = settle s c self.rows self.cols h secrets prngs i self b f

  abbrev steps : ℕ → ℕ → (ℕ → GfpScalar) → ℕ → GfpScalar
  steps rounds b f = settled s c self.rows self.cols h secrets prngs i self rounds b f

  member_bounds : has_prng c i ≡ true → (0 < i) × (i ≤ c.threshold)
  unfolding has_prng_share
  member_bounds e = ground (arith, e)

  -- A block of another party is written with the party's shares of it.
  step-inside :
      (b x : ℕ) (f : ℕ → GfpScalar)
      → b < c.n_players
      → b ≢ i
      → x < self.rows * self.cols
      → In b x
      → step b f x ≡ value b x
  unfolding settle
  step-inside b x f hb ne hx (low, high) = rw (==_ne b i ne) (elim (Bool-cases (has_prng c i)) [
    | inl member ↦
        let (positive, below) = member_bounds member in
        rw member (
          write_block-inside self.cols (start_of c.n_players self.rows b)
            (count_of c.n_players self.rows b) x (prngs b (i - 1)) f low high
          ∙ dealt-prng s c self.rows self.cols h secrets prngs b (x - first b) i positive below)
    | inr far ↦ rw far (
        unpack_block-write_block s self f
          (λ y. dealt s c self.rows self.cols h secrets prngs b y (gfp (i + 1)))
          (start_of c.n_players self.rows b) (count_of c.n_players self.rows b) x
          (block-inside c.n_players self.rows h.base.valid.some_player b hb) hx
        ∙ write_block-inside self.cols (start_of c.n_players self.rows b)
            (count_of c.n_players self.rows b) x
            (λ y. dealt s c self.rows self.cols h secrets prngs b y (gfp (i + 1))) f low high)
  ])

  -- The party's own block, and what is outside a block, stays.
  step-own : (x : ℕ) (f : ℕ → GfpScalar) → step i f x ≡ f x
  unfolding settle
  step-own x f = rw (==_refl i) refl

  step-outside :
      (b x : ℕ) (f : ℕ → GfpScalar)
      → b < c.n_players
      → x < self.rows * self.cols
      → ¬ In b x
      → step b f x ≡ f x
  unfolding settle
  step-outside b x f hb hx out = elim (ℕ_discrete b i) [
    | yes own ↦ rw ((==_iff b i).1 own) refl
    | no ne ↦ rw (==_ne b i ne) (elim (Bool-cases (has_prng c i)) [
      | inl member ↦ rw member (
          write_block-outside self.cols (start_of c.n_players self.rows b)
            (count_of c.n_players self.rows b) x (prngs b (i - 1)) f out)
      | inr far ↦ rw far (
          unpack_block-write_block s self f
            (λ y. dealt s c self.rows self.cols h secrets prngs b y (gfp (i + 1)))
            (start_of c.n_players self.rows b) (count_of c.n_players self.rows b) x
            (block-inside c.n_players self.rows h.base.valid.some_player b hb) hx
          ∙ write_block-outside self.cols (start_of c.n_players self.rows b)
              (count_of c.n_players self.rows b) x
              (λ y. dealt s c self.rows self.cols h secrets prngs b y (gfp (i + 1))) f out)
    ])
  ]

  steps-outside :
      (rounds b b' x : ℕ) (f : ℕ → GfpScalar)
      → b + rounds ≤ c.n_players
      → x < self.rows * self.cols
      → In b' x
      → (b' < b) ⊎ (b' ≡ i)
      → steps rounds b f x ≡ f x
  unfolding settled
  steps-outside zero b b' x f fits hx here past = refl
  steps-outside (suc rounds) b b' x f fits hx here past =
      steps-outside rounds (suc b) b' x (step b f) (omega arith) hx here (later past)
      ∙ (elim (ℕ_discrete b b') [
        | no ne ↦ step-outside b x f (omega arith) hx (λ there. ne (one b b' x there here))
        | yes e ↦ here_own e past
      ])
    where
      one : (b b' x : ℕ) → In b x → In b' x → b ≡ b'
      one b b' x p q = one_block s c self.rows self.cols h secrets prngs b b' x p q

      later : (b' < b) ⊎ (b' ≡ i) → (b' < suc b) ⊎ (b' ≡ i)
      later (inl lt) = inl (omega arith)
      later (inr e) = inr e

      here_own : b ≡ b' → (b' < b) ⊎ (b' ≡ i) → step b f x ≡ f x
      here_own e (inl lt) = absurd (omega arith)
      here_own e (inr own) = ap (λ k. step k f x) (e ∙ own) ∙ step-own x f

  -- The blocks that are done hold the values of the dealt polynomials.
  pub settled-value :
      (rounds b b' x : ℕ) (f : ℕ → GfpScalar)
      → b + rounds ≤ c.n_players
      → x < self.rows * self.cols
      → In b' x
      → b ≤ b'
      → b' < b + rounds
      → b' ≢ i
      → steps rounds b f x ≡ value b' x
  unfolding settled
  settled-value zero b b' x f fits hx here low high ne = absurd (omega arith)
  settled-value (suc rounds) b b' x f fits hx here low high ne = elim (ℕ_discrete b b') [
    | yes e ↦
        steps-outside rounds (suc b) b' x (step b f) (omega arith) hx here (inl (omega arith))
        ∙ ap (λ k. step k f x) e
        ∙ step-inside b' x f (omega arith) ne hx here
    | no far ↦
        settled-value rounds (suc b) b' x (step b f) (omega arith) hx here (omega arith)
          (omega arith) ne
  ]

  -- The party's own block is as it was before.
  pub settled-own :
      (rounds b x : ℕ) (f : ℕ → GfpScalar)
      → b + rounds ≤ c.n_players
      → x < self.rows * self.cols
      → In i x
      → steps rounds b f x ≡ f x
  settled-own rounds b x f fits hx here = steps-outside rounds b i x f fits hx here (inr refl)

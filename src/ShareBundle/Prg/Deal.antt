-- ===== src/ShareBundle/Prg/Deal.antt =====
-- The joint runs of `ShareBundle::input_blocks_dispersed_PRG`: what the parties hold on the way.
use native.Mathlib.Nat.{mul-le-mul_right}
use linux_copy.Common.{
  ℕ, zero, suc, ◌+◌, ◌-◌, ◌*◌, ◌%◌, ◌<◌, ◌≤◌, ◌≡◌, refl, ap, arith, ◌==◌, if◌then◌else◌, le→leb,
  lt→leb_false, dec_lt, Bool, true, false,
}
use linux_copy.Scalar.{pr}
use linux_copy.Gfp.{GfpScalar, gfp}
use linux_copy.Poly.Eval.{IsPoly}
use linux_copy.Stream.{OctetStream}
use linux_copy.Matrix.Pack.{unpack_block}
use linux_copy.ShareBase.{ShareBase}
use linux_copy.Share.Prg.{has_prng_share, t_sharing, own_t_share, reconstruction_with_secret_t}
use linux_copy.Share.Prg.Laws.{distribute_t_sharing_prg_lem}
use linux_copy.Share.Reveal.{party}
use linux_copy.ShareBundle.{ShareBundle, shaped, linear}
use linux_copy.ShareBundle.Block.{write_block}
use linux_copy.ShareBundle.Block.Partition.{start_of, count_of, start-suc}
use linux_copy.ShareBundle.Block.Streams.{octets_of}
use linux_copy.ShareBundle.Block.Reveal.{IsSupported}
use linux_copy.ShareBundle.Prg.{t_sharings, own_t_shares}

-- The generator's methods are for `2 t + 1` parties and the degree `t`.
pub record IsDealt (c : ShareBase) : Type 0 where
  pub base : IsSupported c c.threshold
  pub players : c.n_players ≡ c.threshold * 2 + 1

abbrev pub has_prng : ShareBase → ℕ → Bool
has_prng c i = has_prng_share (party c i) c.threshold

pub has_prng-member : (c : ShareBase) (i : ℕ) → 0 < i → i ≤ c.threshold → has_prng c i ≡ true
unfolding has_prng_share
has_prng-member c i low high = rw (le→leb 1 i low, le→leb i c.threshold high) refl

pub has_prng-king : (c : ShareBase) → has_prng c 0 ≡ false
unfolding has_prng_share
has_prng-king c = refl

pub has_prng-far : (c : ShareBase) (i : ℕ) → c.threshold < i → has_prng c i ≡ false
unfolding has_prng_share
has_prng-far c i h = rw (le→leb 1 i (omega arith), lt→leb_false c.threshold i h) refl

module _ (s : OctetStream) (c : ShareBase) (rows cols : ℕ) (h : IsDealt c)
    (secrets : ℕ → ℕ → GfpScalar) (prngs : ℕ → ℕ → ℕ → GfpScalar) where
  open s use {Octets, empty}
  open c use {n_players, threshold}

  abbrev pub start : ℕ → ℕ
  start b = start_of n_players rows b

  abbrev pub count : ℕ → ℕ
  count b = count_of n_players rows b

  -- The dealt polynomial of entry `y` of the block of party `b`.
  abbrev pub block_secret : ℕ → ℕ → GfpScalar
  block_secret b y = secrets b (start b * cols + y)

  pub small : threshold + 1 < pr
  small = omega (arith, h.players, h.base.valid.few_players)

  unfoldable pub dealt : ℕ → ℕ → GfpScalar → GfpScalar
  dealt b y =
      (distribute_t_sharing_prg_lem (party c 0) (block_secret b y) (λ k. prngs b k y) h.players
        small).0

  pub dealt-IsPoly : (b y : ℕ) → IsPoly (threshold + 1) (dealt b y)
  unfolding dealt
  dealt-IsPoly b y =
      (distribute_t_sharing_prg_lem (party c 0) (block_secret b y) (λ k. prngs b k y) h.players
        small).1

  pub dealt-secret : (b y : ℕ) → dealt b y (gfp 0) ≡ block_secret b y
  unfolding dealt
  dealt-secret b y =
      (distribute_t_sharing_prg_lem (party c 0) (block_secret b y) (λ k. prngs b k y) h.players
        small).2

  -- The dealer's own share, the shares from the generator, and the rows for the other parties.
  pub dealt-own :
      (b y : ℕ)
      → b < n_players
      → own_t_shares (party c b) threshold (block_secret b) (prngs b) y ≡ dealt b y (gfp (b + 1))
  unfolding dealt own_t_shares own_t_share t_sharings t_sharing reconstruction_with_secret_t
      has_prng_share
  dealt-own b y hb =
      (distribute_t_sharing_prg_lem (party c 0) (block_secret b y) (λ k. prngs b k y) h.players
          small).3
        b hb

  pub dealt-prng : (b y j : ℕ) → 0 < j → j ≤ threshold → prngs b (j - 1) y ≡ dealt b y (gfp (j + 1))
  unfolding dealt
  dealt-prng b y j low high =
      (distribute_t_sharing_prg_lem (party c 0) (block_secret b y) (λ k. prngs b k y) h.players
          small).4
        j low high

  pub dealt-row :
      (b y q : ℕ)
      → q ≤ threshold
      → t_sharings (party c b) threshold (block_secret b) (prngs b) q y
        ≡ dealt b y (gfp ((threshold + 1 + q) % n_players + 1))
  unfolding dealt t_sharings t_sharing reconstruction_with_secret_t
  dealt-row b y q hq =
      (distribute_t_sharing_prg_lem (party c 0) (block_secret b y) (λ k. prngs b k y) h.players
          small).5
        q hq

  -- The stream from dealer `b` to party `j`: its shares of the block.
  abbrev pub block_message : ℕ → ℕ → Octets
  block_message j b = octets_of s (count b * cols) (λ y. dealt b y (gfp (j + 1)))

  -- The shares of party `i` when block `b` is done.
  unfoldable pub settle : ℕ → ShareBundle → ℕ → (ℕ → GfpScalar) → ℕ → GfpScalar
  settle i self b f =
      if b == i
      then f
      else if has_prng c i
      then write_block cols (start b) (count b) (prngs b (i - 1)) f
      else linear (unpack_block s (shaped self f) (start b) (count b) (block_message i b))

  unfoldable pub settled : ℕ → ShareBundle → ℕ → ℕ → (ℕ → GfpScalar) → ℕ → GfpScalar
  unfolding settle
  settled i self zero b f = f
  settled i self (suc rounds) b f = settled i self rounds (suc b) (settle i self b f)

  abbrev pub InBlock : ℕ → ℕ → Type 0
  InBlock b x = (start b * cols ≤ x) × (x < (start b + count b) * cols)

  some_party : 0 < n_players
  some_party = h.base.valid.some_player

  start_mono : (b k : ℕ) → start b ≤ start (b + k)
  start_mono b zero = ap_le (omega arith)
    where
      ap_le : b ≡ b + 0 → start b ≤ start (b + 0)
      ap_le e = omega (arith, ap (λ m. start m) e)
  start_mono b (suc k) = omega (
    arith,
    start_mono b k,
    start-suc n_players rows some_party (b + k),
    ap (λ m. start m) {x = b + suc k} {y = suc (b + k)} (omega arith),
  )

  after_block : (b b' : ℕ) → b < b' → (start b + count b) * cols ≤ start b' * cols
  after_block b b' lt = mul-le-mul_right cols (
      omega (
        arith,
        start-suc n_players rows some_party b,
        start_mono (suc b) (b' - suc b),
        ap (λ m. start m) {x = suc b + (b' - suc b)} {y = b'} (omega arith),
      ))

  -- An index is in one block only.
  pub one_block : (b b' x : ℕ) → InBlock b x → InBlock b' x → b ≡ b'
  one_block b b' x here there = elim (dec_lt b b') [
    | yes lt ↦ absurd (omega (arith, after_block b b' lt, here, there))
    | no ge ↦ elim (dec_lt b' b) [
      | yes lt ↦ absurd (omega (arith, after_block b' b lt, here, there))
      | no le ↦ omega arith
    ]
  ]

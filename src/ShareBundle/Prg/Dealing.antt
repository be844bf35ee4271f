-- ===== src/ShareBundle/Prg/Dealing.antt =====
-- The joint runs of `ShareBundle::input_blocks_dispersed_PRG`: what a party does in its loops.
use linux_copy.Common.{
  ℕ, zero, suc, ◌+◌, ◌-◌, ◌*◌, ◌/◌, ◌<◌, ◌≤◌, ◌≡◌, ◌≢◌, ◌⊎◌, refl, ap, ◌∙◌, sym, arith, ==_refl,
  ==_ne, ==_iff, List, length, tabulate, inl, inr, le→leb, ℕ_discrete, replicate, length-replicate,
  fun_ext,
}
use linux_copy.Gfp.{GfpScalar}
use linux_copy.Stream.{OctetStream}
use linux_copy.Network.{Proc, ret, ◌>>=◌}
use linux_copy.Network.Inversion.{bind_assoc}
use linux_copy.ShareBase.{ShareBase}
use linux_copy.Share.Reveal.{party}
use linux_copy.ShareBundle.{ShareBundle, set_shares}
use linux_copy.ShareBundle.Block.{write_block}
use linux_copy.ShareBundle.Block.Partition.{
  start_of, count_of, start-suc, count_later, block-inside,
}
use linux_copy.ShareBundle.Block.Streams.{octets_of}
use linux_copy.ShareBundle.Prg.{calculate_t_sharings_prg, send_prg, t_sharings, own_t_shares}
use linux_copy.ShareBundle.Prg.Streams.{pack_rows-table}
use linux_copy.ShareBundle.Prg.Blocks.{
  calculate_block_t_sharings_prg, input_block_from_party_request_prg, request_blocks_prg,
}
use linux_copy.ShareBundle.Prg.Deal.{IsDealt, block_secret}

module _ (s : OctetStream) (c : ShareBase) (rows cols : ℕ) (h : IsDealt c)
    (secrets : ℕ → ℕ → GfpScalar) (prngs : ℕ → ℕ → ℕ → GfpScalar) (old : ℕ → ℕ → GfpScalar) (i : ℕ)
    (hi : i < c.n_players) where
  open s use {Octets, empty}
  open c use {n_players, threshold}

  -- The party's bundle, with these shares.
  abbrev pub holding : (ℕ → GfpScalar) → ShareBundle
  holding f = record {
    rows = rows;
    cols = cols;
    secrets = secrets i;
    degree = threshold;
    shares = f;
  }

  abbrev pub first : ℕ → ℕ
  first b = start_of n_players rows b

  abbrev pub n_rows : ℕ → ℕ
  n_rows b = count_of n_players rows b

  -- The streams that the party deals, and its own shares.
  abbrev pub packed : List Octets
  packed = tabulate (n_players - threshold) (λ q.
      octets_of s (n_rows i * cols) (
        t_sharings (party c i) threshold (block_secret s c rows cols h secrets prngs i) (prngs i)
          q))

  unfoldable pub own_block : ℕ → GfpScalar
  own_block =
      write_block cols (first i) (n_rows i)
        (own_t_shares (party c i) threshold (block_secret s c rows cols h secrets prngs i)
          (prngs i))
        (old i)

  abbrev pub dealing : Proc Octets ShareBundle
  dealing = send_prg s (party c i) packed >>= λ u. ret (holding own_block)

  pub request_own :
      input_block_from_party_request_prg s
        (party c i)
        i
        (first i)
        (n_rows i)
        (prngs i)
        (holding (old i))
      ≡ dealing
  unfolding input_block_from_party_request_prg calculate_block_t_sharings_prg
      calculate_t_sharings_prg own_block set_shares
  request_own =
      rw
        (
          input_block_from_party_request_prg,
          calculate_block_t_sharings_prg,
          calculate_t_sharings_prg,
          le→leb (first i + n_rows i) rows
              (block-inside n_players rows h.base.valid.some_player i hi),
          ==_refl threshold,
          ==_refl i,
          (==_iff (n_players - threshold) (threshold + 1)).1 (omega (arith, h.players)),
          (==_iff (n_players - threshold) (length (replicate (n_players - threshold) empty))).1
              (sym (length-replicate (n_players - threshold) empty)),
          pack_rows-table s (n_players - threshold) (n_rows i * cols)
              (t_sharings (party c i) threshold (block_secret s c rows cols h secrets prngs i)
                (prngs i))
              (omega (arith, h.players)),
        )
        refl

  pub request_other :
      (b start_row blk : ℕ)
      → b ≢ i
      → input_block_from_party_request_prg s (party c i) b start_row blk (prngs b) (holding (old i))
        ≡ ret (holding (old i))
  unfolding input_block_from_party_request_prg
  request_other b start_row blk ne =
      rw (input_block_from_party_request_prg, ==_refl threshold, ==_ne b i ne) refl

  loop_other :
      (blk rounds b start_row : ℕ)
      → (i < b) ⊎ (b + rounds ≤ i)
      → request_blocks_prg s (party c i) prngs blk rounds b start_row (holding (old i))
        ≡ ret (holding (old i))
  unfolding request_blocks_prg
  loop_other blk zero b start_row out = refl
  loop_other blk (suc rounds) b start_row out =
      ap (λ p. p >>= request_blocks_prg s (party c i) prngs blk rounds (suc b) (start_row + blk))
        (request_other b start_row blk (λ e. different e out))
      ∙ loop_other blk rounds (suc b) (start_row + blk) (later out)
    where
      different : b ≡ i → (i < b) ⊎ (b + suc rounds ≤ i) → ⊥
      different e (inl below) = absurd (omega arith)
      different e (inr above) = absurd (omega arith)

      later : (i < b) ⊎ (b + suc rounds ≤ i) → (i < suc b) ⊎ (suc b + rounds ≤ i)
      later (inl below) = inl (omega arith)
      later (inr above) = inr (omega arith)

  -- After the party's own request the loop does nothing more.
  pub loop_done :
      (blk rounds b start_row : ℕ) (f : ℕ → GfpScalar)
      → i < b
      → request_blocks_prg s (party c i) prngs blk rounds b start_row (holding f) ≡ ret (holding f)
  unfolding request_blocks_prg input_block_from_party_request_prg
  loop_done blk zero b start_row f below = refl
  loop_done blk (suc rounds) b start_row f below =
      rw (==_refl threshold, ==_ne b i (omega arith))
        (loop_done blk rounds (suc b) (start_row + blk) f (omega arith))

  abbrev pub blk : ℕ
  blk = rows / n_players

  abbrev pub some_party : 0 < n_players
  some_party = h.base.valid.some_player

  pub next_start : (b : ℕ) → first (suc b) + blk ≡ first (suc (suc b))
  next_start b =
      omega (
        arith,
        start-suc n_players rows some_party (suc b),
        count_later n_players rows some_party b,
      )

  own_round :
      (b : ℕ)
      → suc b ≡ i
      → input_block_from_party_request_prg s
          (party c i)
          (suc b)
          (first (suc b))
          blk
          (prngs (suc b))
          (holding (old i))
        ≡ dealing
  own_round b e =
      ap
        (λ n.
          input_block_from_party_request_prg s (party c i) (suc b) (first (suc b)) n (prngs (suc b))
            (holding (old i)))
        (sym (count_later n_players rows some_party b))
      ∙ ap
          (λ k.
            input_block_from_party_request_prg s (party c i) k (first k) (n_rows k) (prngs k)
              (holding (old i)))
          e
      ∙ request_own

  pub loop_own :
      (rounds b : ℕ)
      → suc b ≤ i
      → i < suc b + rounds
      → request_blocks_prg s (party c i) prngs blk rounds (suc b) (first (suc b)) (holding (old i))
        ≡ dealing
  unfolding request_blocks_prg
  loop_own zero b low high = absurd (omega arith)
  loop_own (suc rounds) b low high = elim (ℕ_discrete (suc b) i) [
    | yes here ↦
        ap
          (λ p.
            p
            >>= request_blocks_prg s (party c i) prngs blk rounds (suc (suc b))
                (first (suc b) + blk))
          (own_round b here)
        ∙ bind_assoc (send_prg s (party c i) packed) _ _
        ∙ ap (λ (k : Unit {0} → Proc Octets ShareBundle). send_prg s (party c i) packed >>= k)
            (fun_ext (λ u. loop_done blk rounds (suc (suc b)) _ own_block (omega arith)))
    | no there ↦
        ap
          (λ p.
            p
            >>= request_blocks_prg s (party c i) prngs blk rounds (suc (suc b))
                (first (suc b) + blk))
          (request_other (suc b) (first (suc b)) blk there)
        ∙ ap
            (λ t.
              request_blocks_prg s (party c i) prngs blk rounds (suc (suc b)) t (holding (old i)))
            (next_start b)
        ∙ loop_own rounds (suc b) (omega arith) (omega arith)
  ]

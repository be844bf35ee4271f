-- ===== src/ShareBundle/Prg/Finish.antt =====
-- The joint runs of `ShareBundle::input_blocks_dispersed_PRG`: what a party receives.
use linux_copy.Common.{
  ℕ, zero, suc, ◌+◌, ◌-◌, ◌/◌, ◌<◌, ◌≤◌, ◌≡◌, ◌≢◌, ◌⊎◌, refl, ap, ap₂, ◌∙◌, sym, arith, ==_refl,
  ==_ne, ==_iff, if◌then◌else◌, List, [], Bool-cases, inl, inr, le→leb, ℕ_discrete, subst, true,
  false,
}
use linux_copy.Gfp.{GfpScalar}
use linux_copy.Stream.{OctetStream}
use linux_copy.Matrix.Pack.{unpack_block}
use linux_copy.Network.{Proc, ret, receive, ◌>>=◌}
use linux_copy.Network.Run.{Event, Runs, done, receives}
use linux_copy.Network.Inversion.{run_as}
use linux_copy.Network.Arrivals.{arrivals}
use linux_copy.ShareBase.{ShareBase}
use linux_copy.Share.Reveal.{party}
use linux_copy.ShareBundle.{ShareBundle, set_shares, shaped, linear}
use linux_copy.ShareBundle.Block.{partition_rows}
use linux_copy.ShareBundle.Block.Partition.{
  start_of, count_of, count_later, start-suc, block-inside,
}
use linux_copy.ShareBundle.Prg.Blocks.{
  get_block_t_sharings_prg_wait, finish_input_block_from_party_prg, finish_blocks_prg,
}
use linux_copy.ShareBundle.Prg.Deal.{IsDealt, has_prng, block_message, settle, settled}
use linux_copy.ShareBundle.Prg.Dealing.{holding, next_start}

module _ (s : OctetStream) (c : ShareBase) (rows cols : ℕ) (h : IsDealt c)
    (secrets : ℕ → ℕ → GfpScalar) (prngs : ℕ → ℕ → ℕ → GfpScalar) (old : ℕ → ℕ → GfpScalar) (i : ℕ)
    (hi : i < c.n_players) where
  open s use {Octets, empty}
  open c use {n_players, threshold}

  abbrev held : (ℕ → GfpScalar) → ShareBundle
  held f = holding s c rows cols h secrets prngs old i hi f

  abbrev begin : ℕ → ℕ
  begin b = start_of n_players rows b

  abbrev block_size : ℕ → ℕ
  block_size b = count_of n_players rows b

  abbrev message : ℕ → Octets
  message b = block_message s c rows cols h secrets prngs i b

  abbrev next : ℕ → (ℕ → GfpScalar) → ℕ → GfpScalar
  next b f = settle s c rows cols h secrets prngs i (held (old i)) b f

  -- A block of which the party has its shares without a message.
  finish_local :
      (b : ℕ) (f : ℕ → GfpScalar)
      → b < n_players
      → (b ≡ i) ⊎ (has_prng c i ≡ true)
      → finish_input_block_from_party_prg s
          (party c i)
          b
          (begin b)
          (block_size b)
          (prngs b)
          (held f)
        ≡ ret (held (next b f))
  unfolding finish_input_block_from_party_prg get_block_t_sharings_prg_wait settle set_shares
  finish_local b f hb why = elim (ℕ_discrete b i) [
    | yes own ↦
        rw (finish_input_block_from_party_prg, settle, ==_refl threshold, (==_iff b i).1 own) refl
    | no ne ↦ elim why [
      | inl own ↦ absurd (ne own)
      | inr member ↦
          rw
            (
              finish_input_block_from_party_prg,
              get_block_t_sharings_prg_wait,
              settle,
              ==_refl threshold,
              ==_ne b i ne,
              member,
              le→leb (begin b + block_size b) rows
                  (block-inside n_players rows h.base.valid.some_player b hb),
            )
            refl
    ]
  ]

  finish_received :
      (b : ℕ) (f : ℕ → GfpScalar)
      → b ≢ i
      → has_prng c i ≡ false
      → finish_input_block_from_party_prg s
          (party c i)
          b
          (begin b)
          (block_size b)
          (prngs b)
          (held f)
        ≡ receive b (λ o.
          ret (held (linear (unpack_block s (shaped (held f) f) (begin b) (block_size b) o))))
  unfolding finish_input_block_from_party_prg get_block_t_sharings_prg_wait set_shares
  finish_received b f ne far =
      rw
        (
          finish_input_block_from_party_prg,
          get_block_t_sharings_prg_wait,
          ==_refl threshold,
          ==_ne b i ne,
          far,
        )
        refl

  next_received :
      (b : ℕ) (f : ℕ → GfpScalar)
      → b ≢ i
      → has_prng c i ≡ false
      → next b f ≡ linear (unpack_block s (shaped (held f) f) (begin b) (block_size b) (message b))
  unfolding settle
  next_received b f ne far = rw (settle, ==_ne b i ne, far) refl

  abbrev pub arriving : ℕ → ℕ → List (Event Octets)
  arriving b rounds = if has_prng c i then [] else arrivals i b rounds message

  finish : ℕ → (ℕ → GfpScalar) → Proc Octets ShareBundle
  finish b f =
      finish_input_block_from_party_prg s (party c i) b (begin b) (block_size b) (prngs b) (held f)

  -- One round, and what follows it.
  finish_step :
      (b rounds : ℕ) (f : ℕ → GfpScalar) (k : ShareBundle → Proc Octets ShareBundle)
      {final : ShareBundle}
      → b < n_players
      → Runs Octets ShareBundle (k (held (next b f))) (arriving (suc b) rounds) final
      → Runs Octets ShareBundle (finish b f >>= k) (arriving b (suc rounds)) final
  unfolding finish
  finish_step b rounds f k {final} hb r = elim (Bool-cases (has_prng c i)) [
    | inl member ↦
        run_as (sym (ap (λ p. p >>= k) (finish_local b f hb (inr member))))
          (subst (λ t. Runs Octets ShareBundle (k (held (next b f))) t final) (rw member refl) r)
    | inr far ↦ elim (ℕ_discrete b i) [
      | yes own ↦ run_as (sym (ap (λ p. p >>= k) (finish_local b f hb (inl own)))) (
          subst (λ t. Runs Octets ShareBundle (k (held (next b f))) t final)
            (rw (far, (==_iff i b).1 (sym own)) refl) r)
      | no ne ↦ run_as (sym (ap (λ p. p >>= k) (finish_received b f ne far))) (
          subst
            (λ t.
              Runs Octets ShareBundle
                (receive b (λ o.
                  k (
                    held (linear (unpack_block s (shaped (held f) f) (begin b) (block_size b) o)))))
                t final)
            (rw (far, ==_ne i b (omega arith)) refl)
            (receives (run_as (ap (λ g. k (held g)) (next_received b f ne far)) r)))
    ]
  ]

  abbrev final_shares : ℕ → ℕ → (ℕ → GfpScalar) → ℕ → GfpScalar
  final_shares rounds b f = settled s c rows cols h secrets prngs i (held (old i)) rounds b f

  finish_loop :
      (rounds b : ℕ) (f : ℕ → GfpScalar)
      → suc b + rounds ≤ n_players
      → Runs Octets ShareBundle
          (finish_blocks_prg s
            (party c i)
            prngs
            (rows / n_players)
            rounds
            (suc b)
            (begin (suc b))
            (held f))
          (arriving (suc b) rounds)
          (held (final_shares rounds (suc b) f))
  unfolding finish_blocks_prg settled finish
  finish_loop zero b f fits = elim (Bool-cases (has_prng c i)) [
    | inl member ↦ rw member done
    | inr far ↦ rw far done
  ]
  finish_loop (suc rounds) b f fits =
      run_as
        (ap₂
          (λ n t.
            finish_input_block_from_party_prg s (party c i) (suc b) (begin (suc b)) n
              (prngs (suc b)) (held f)
            >>= finish_blocks_prg s (party c i) prngs (rows / n_players) rounds (suc (suc b)) t)
          (count_later n_players rows h.base.valid.some_player b)
          (sym (next_start s c rows cols h secrets prngs old i hi b)))
        (finish_step (suc b) rounds f _ (omega arith)
          (finish_loop rounds (suc b) (next (suc b) f) (omega arith)))

  -- All the blocks, the first on its own.
  pub finish-Runs :
      (f : ℕ → GfpScalar)
      → Runs Octets ShareBundle
          (finish_input_block_from_party_prg s (party c i) 0 0 (block_size 0) (prngs 0) (held f)
            >>= finish_blocks_prg s
                (party c i)
                prngs
                (rows / n_players)
                (n_players - 1)
                1
                (block_size 0))
          (arriving 0 n_players)
          (held (final_shares n_players 0 f))
  unfolding settled finish partition_rows
  finish-Runs f =
      subst
        (λ n.
          Runs Octets ShareBundle
            (finish_input_block_from_party_prg s (party c i) 0 0 (block_size 0) (prngs 0) (held f)
              >>= finish_blocks_prg s (party c i) prngs (rows / n_players) (n_players - 1) 1
                  (block_size 0))
            (arriving 0 n) (held (final_shares n 0 f)))
        {x = suc (n_players - 1)} {y = n_players} (omega arith)
        (run_as
          (ap
            (λ t.
              finish_input_block_from_party_prg s (party c i) 0 0 (block_size 0) (prngs 0) (held f)
              >>= finish_blocks_prg s (party c i) prngs (rows / n_players) (n_players - 1) 1 t)
            (start-suc n_players rows h.base.valid.some_player 0 ∙ omega arith))
          (finish_step 0 (n_players - 1) f _ (omega arith)
            (finish_loop (n_players - 1) 0 (next 0 f) (omega arith))))

-- ===== src/ShareBundle/Prg/Exists.antt =====
-- The joint runs of `ShareBundle::input_blocks_dispersed_PRG`.
use native.Mathlib.Nat.{mod-eq_of_lt, mod_self}
use linux_copy.Common.{
  ℕ, zero, suc, ◌+◌, ◌-◌, ◌*◌, ◌/◌, ◌<◌, ◌≤◌, ◌≡◌, ◌≢◌, ◌⊎◌, refl, ap, ◌∙◌, sym, arith, ◌==◌, ==_ne,
  if◌then◌else◌, List, [], ◌∷◌, length, tabulate, get_or, get_or-tabulate, length-tabulate,
  Bool-cases, inl, inr, dec_lt, dec_le, ℕ_discrete, true, false, fun_ext, false-ne-true,
}
use linux_copy.Gfp.{GfpScalar, gfp}
use linux_copy.Stream.{OctetStream}
use linux_copy.Matrix.Table.{tabulate_congr}
use linux_copy.Network.{Proc, ret, ◌>>=◌}
use linux_copy.Network.Run.{Event, sent_to, received_from}
use linux_copy.Network.Inversion.{bind_assoc}
use linux_copy.Network.Joint.{Joint, Joint-as, Joint-exchange}
use linux_copy.Network.Arrivals.{
  arrivals, sent_to-arrivals, received_from-arrivals, received_from-arrivals_own, window,
  window-Runs, received_from-window, sent_to-window, sent_to-window_own, sent_to-window_outside,
}
use linux_copy.ShareBase.{ShareBase}
use linux_copy.Share.Reveal.{party}
use linux_copy.ShareBundle.{ShareBundle}
use linux_copy.ShareBundle.Block.{partition_rows, write_block}
use linux_copy.ShareBundle.Block.Partition.{start_of, count_of, start-suc}
use linux_copy.ShareBundle.Block.Streams.{octets_of}
use linux_copy.ShareBundle.Prg.{send_prg, t_sharings, own_t_shares}
use linux_copy.ShareBundle.Prg.Blocks.{
  input_block_from_party_request_prg, finish_input_block_from_party_prg, request_blocks_prg,
  finish_blocks_prg, input_blocks_dispersed_prg,
}
use linux_copy.ShareBundle.Prg.Deal.{
  IsDealt, has_prng, has_prng-member, has_prng-king, has_prng-far, block_secret, block_message,
  dealt-row, dealt, settled,
}
use linux_copy.ShareBundle.Prg.Dealing.{
  holding, packed, own_block, dealing, request_own, request_other, loop_own, loop_done,
}
use linux_copy.ShareBundle.Prg.Finish.{finish-Runs}

module _ (s : OctetStream) (c : ShareBase) (rows cols : ℕ) (h : IsDealt c)
    (secrets : ℕ → ℕ → GfpScalar) (prngs : ℕ → ℕ → ℕ → GfpScalar) (old : ℕ → ℕ → GfpScalar) where
  open s use {Octets, empty, append}
  open c use {n_players, threshold}

  module _ (i : ℕ) (hi : i < c.n_players) where
    abbrev bundle : (ℕ → GfpScalar) → ShareBundle
    bundle f = holding s c rows cols h secrets prngs old i hi f

    abbrev first_rows : ℕ
    first_rows = count_of n_players rows 0

    abbrev requests : ShareBundle → Proc Octets ShareBundle
    requests b =
        request_blocks_prg s (party c i) prngs (rows / n_players) (n_players - 1) 1 first_rows b

    abbrev finishes : ShareBundle → Proc Octets ShareBundle
    finishes b =
        finish_input_block_from_party_prg s (party c i) 0 0 first_rows (prngs 0) b
        >>= finish_blocks_prg s (party c i) prngs (rows / n_players) (n_players - 1) 1 first_rows

    requests-dealing :
        (input_block_from_party_request_prg s (party c i) 0 0 first_rows (prngs 0) (bundle (old i))
          >>= requests)
        ≡ dealing s c rows cols h secrets prngs old i hi
    unfolding partition_rows
    requests-dealing = elim (ℕ_discrete 0 i) [
      | yes king ↦
          ap (λ p. p >>= requests)
            (ap
                (λ k.
                  input_block_from_party_request_prg s (party c i) k (start_of n_players rows k)
                    (count_of n_players rows k) (prngs k) (bundle (old i)))
                king
              ∙ request_own s c rows cols h secrets prngs old i hi)
          ∙ bind_assoc (send_prg s (party c i) streams) _ _
          ∙ ap (λ (k : Unit {0} → Proc Octets ShareBundle). send_prg s (party c i) streams >>= k)
              (fun_ext (λ u.
                loop_done s c rows cols h secrets prngs old i hi (rows / n_players) (n_players - 1)
                  1 first_rows own (omega arith)))
      | no other ↦
          ap (λ p. p >>= requests)
            (request_other s c rows cols h secrets prngs old i hi 0 0 first_rows other)
          ∙ ap
              (λ t.
                request_blocks_prg s (party c i) prngs (rows / n_players) (n_players - 1) 1 t
                  (bundle (old i)))
              (sym (start-suc n_players rows h.base.valid.some_player 0 ∙ omega arith))
          ∙ loop_own s c rows cols h secrets prngs old i hi (n_players - 1) 0 (omega arith)
              (omega arith)
    ]
      where
        streams : List Octets
        streams = packed s c rows cols h secrets prngs old i hi

        own : ℕ → GfpScalar
        own = own_block s c rows cols h secrets prngs old i hi

    input-dealing :
        input_blocks_dispersed_prg s (party c i) (bundle (old i)) prngs
        ≡ (dealing s c rows cols h secrets prngs old i hi >>= finishes)
    unfolding input_blocks_dispersed_prg partition_rows
    input-dealing =
        sym (
          bind_assoc
            (input_block_from_party_request_prg s (party c i) 0 0 first_rows (prngs 0)
              (bundle (old i)))
            requests finishes)
        ∙ ap (λ p. p >>= finishes) requests-dealing

  abbrev pub input_bundle : ℕ → (ℕ → GfpScalar) → ShareBundle
  input_bundle i f = record {
    rows = rows;
    cols = cols;
    secrets = secrets i;
    degree = threshold;
    shares = f;
  }

  -- The party's shares of its own block, and those it ends with.
  abbrev own_shares : ℕ → ℕ → GfpScalar
  own_shares i =
      write_block cols (start_of n_players rows i) (count_of n_players rows i)
        (own_t_shares (party c i) threshold (block_secret s c rows cols h secrets prngs i)
          (prngs i))
        (old i)

  unfoldable pub input_shares : ℕ → ℕ → GfpScalar
  input_shares i =
      settled s c rows cols h secrets prngs i (input_bundle i (old i)) n_players 0 (own_shares i)

  abbrev streams_of : ℕ → List Octets
  streams_of j = tabulate (n_players - threshold) (λ q.
      octets_of s (count_of n_players rows j * cols) (
        t_sharings (party c j) threshold (block_secret s c rows cols h secrets prngs j) (prngs j)
          q))

  abbrev wrap : ℕ → ℕ
  wrap k = c.positive_modulo k n_players

  abbrev sends : ℕ → List (Event Octets)
  sends j = window j wrap (threshold + 1) (streams_of j)

  abbrev message : ℕ → ℕ → Octets
  message i j = block_message s c rows cols h secrets prngs i j

  abbrev arrives : ℕ → List (Event Octets)
  arrives i = if has_prng c i then [] else arrivals i 0 n_players (λ b. message i b)

  -- The place of a party in the window.
  place : ℕ → ℕ
  place i = if i == 0 then threshold else i - threshold - 1

  wrap_low : (k : ℕ) → k < n_players → wrap k ≡ k
  wrap_low k lt = h.base.valid.modulo k ∙ mod-eq_of_lt lt

  wrap_round : (k : ℕ) → k ≡ n_players → wrap k ≡ 0
  wrap_round k e = ap wrap e ∙ h.base.valid.modulo n_players ∙ mod_self n_players

  far_cases : (i : ℕ) → has_prng c i ≡ false → (i ≡ 0) ⊎ (threshold < i)
  far_cases zero far = inl refl
  far_cases (suc i) far = elim (dec_le (suc i) threshold) [
    | yes low ↦ absurd (false-ne-true (sym far ∙ has_prng-member c (suc i) (omega arith) low))
    | no high ↦ inr (omega arith)
  ]

  place-zero : place 0 ≡ threshold
  unfolding place
  place-zero = refl

  place-far : (i : ℕ) → threshold < i → place i ≡ i - threshold - 1
  unfolding place
  place-far i lt = rw (==_ne i 0 (omega arith)) refl

  wrap-place : (i : ℕ) → i < n_players → has_prng c i ≡ false → wrap (threshold + 1 + place i) ≡ i
  wrap-place i hi far = elim (far_cases i far) [
    | inl king ↦
        wrap_round (threshold + 1 + place i) (omega (arith, h.players, ap place king, place-zero))
        ∙ sym king
    | inr lt ↦
        wrap_low (threshold + 1 + place i) (omega (arith, place-far i lt))
        ∙ omega (arith, place-far i lt)
  ]

  place_only :
      (i k : ℕ)
      → has_prng c i ≡ false
      → threshold + 1 ≤ k
      → k < threshold + 1 + (threshold + 1)
      → wrap k ≡ i
      → k ≡ threshold + 1 + place i
  place_only i k far low high e = elim (dec_lt k n_players) [
    | yes lt ↦ omega (arith, wrap_low k lt, place-far i (omega (arith, wrap_low k lt)))
    | no ge ↦ omega (
      arith,
      h.players,
      wrap_round k (omega (arith, h.players)),
      ap place {x = i} {y = 0} (omega (arith, wrap_round k (omega (arith, h.players)))),
      place-zero,
    )
  ]

  -- A party in `1 … t` is outside the window.
  window_member :
      (i k : ℕ)
      → has_prng c i ≡ true
      → threshold + 1 ≤ k
      → k < threshold + 1 + (threshold + 1)
      → wrap k ≢ i
  window_member i k member low high e = elim (dec_lt k n_players) [
    | yes lt ↦ false-ne-true (sym (has_prng-far c i (omega (arith, wrap_low k lt))) ∙ member)
    | no ge ↦ false-ne-true (
        sym (has_prng-king c)
        ∙ ap (has_prng c) {x = 0} {y = i} (omega (arith, wrap_round k (omega (arith, h.players))))
        ∙ member)
  ]

  place-le : (i : ℕ) → i < n_players → has_prng c i ≡ false → place i ≤ threshold
  place-le i hi far = elim (far_cases i far) [
    | inl king ↦ omega (arith, ap place king, place-zero)
    | inr lt ↦ omega (arith, h.players, place-far i lt)
  ]

  stream-message :
      (i j : ℕ)
      → i < n_players
      → has_prng c i ≡ false
      → get_or (streams_of j) (place i) empty ≡ message i j
  stream-message i j hi far =
      get_or-tabulate (n_players - threshold) _ (place i) empty
        (omega (arith, h.players, place-le i hi far))
      ∙ ap (append empty) (
          tabulate_congr (count_of n_players rows j * cols) _ _ (λ y hy.
            dealt-row s c rows cols h secrets prngs j y (place i) (place-le i hi far)
            ∙ ap (λ n. dealt s c rows cols h secrets prngs j y (gfp (n + 1)))
                (sym (h.base.valid.modulo (threshold + 1 + place i)) ∙ wrap-place i hi far)))

  length-streams : (j : ℕ) → length (streams_of j) ≡ threshold + 1
  length-streams j = length-tabulate (n_players - threshold) _ ∙ omega (arith, h.players)

  same_messages :
      (i j : ℕ) → i < n_players → j < n_players → received_from j (arrives i) ≡ sent_to i (sends j)
  same_messages i j hi hj = elim (Bool-cases (has_prng c i)) [
    | inl member ↦ rw member (
        sym (
          sent_to-window_outside j wrap (threshold + 1) i (streams_of j)
            (λ k low high. window_member i k member low (omega (arith, length-streams j)))))
    | inr far ↦ rw far (elim (ℕ_discrete i j) [
      | yes own ↦
          ap (λ k. received_from k (arrivals i 0 n_players (λ b. message i b))) (sym own)
          ∙ received_from-arrivals_own i 0 n_players (λ b. message i b)
          ∙ sym (sent_to-window_own i wrap (threshold + 1) (streams_of i))
          ∙ ap (λ k. sent_to i (sends k)) own
      | no other ↦
          received_from-arrivals i 0 n_players (λ b. message i b) j (omega arith) (omega arith)
            (omega arith)
          ∙ ap (λ o. o ∷ []) (sym (stream-message i j hi far))
          ∙ sym (
              sent_to-window j wrap (threshold + 1) i (place i) (streams_of j) empty
                (omega (arith, length-streams j, place-le i hi far)) other (wrap-place i hi far)
                (λ k low high e. place_only i k far low (omega (arith, length-streams j)) e))
    ])
  ]

  only_arrives : (i j : ℕ) → sent_to j (arrives i) ≡ []
  only_arrives i j = elim (Bool-cases (has_prng c i)) [
    | inl member ↦ rw member refl
    | inr far ↦ rw far (sent_to-arrivals i 0 n_players (λ b. message i b) j)
  ]

  -- The parties deal the blocks, over channels that deliver what was sent.
  pub input_blocks-Joint :
      Joint Octets ShareBundle n_players
        (λ i. input_blocks_dispersed_prg s (party c i) (input_bundle i (old i)) prngs)
        (λ i. input_bundle i (input_shares i))
  unfolding own_block input_shares
  input_blocks-Joint =
      Joint-as n_players
        (λ i. send_prg s (party c i) (streams_of i) >>= λ u.
          ret (input_bundle i (own_shares i)) >>= finishing i)
        (λ i. input_blocks_dispersed_prg s (party c i) (input_bundle i (old i)) prngs)
        (λ i. input_bundle i (input_shares i))
        (λ i hi. sym (
          input-dealing i hi
          ∙ bind_assoc (send_prg s (party c i) (streams_of i))
              (λ u. ret (input_bundle i (own_shares i))) (finishing i)))
        (Joint-exchange n_players (λ i. send_prg s (party c i) (streams_of i))
          (λ i u. finishing i (input_bundle i (own_shares i))) (λ i. tt)
          (λ i. input_bundle i (input_shares i)) sends arrives
          (λ i hi. unfold send_prg in window-Runs i wrap (threshold + 1) (streams_of i))
          (λ i hi. finish-Runs s c rows cols h secrets prngs old i hi (own_shares i))
          (λ i j. received_from-window i wrap (threshold + 1) j (streams_of i)) only_arrives
          same_messages)
    where
      finishing : ℕ → ShareBundle → Proc Octets ShareBundle
      finishing i b =
          finish_input_block_from_party_prg s (party c i) 0 0 (count_of n_players rows 0) (prngs 0)
            b
          >>= finish_blocks_prg s (party c i) prngs (rows / n_players) (n_players - 1) 1
              (count_of n_players rows 0)

-- ===== src/ShareBundle/Block/Reveal.antt =====
-- The joint runs of `ShareBundle::reveal_blocks_dispersed`: each party computes the secrets of its
-- block.
use native.Mathlib.Nat.{mod-eq_of_lt}
use linux_copy.Common.{
  ℕ, suc, ◌+◌, ◌-◌, ◌*◌, ◌<◌, ◌≤◌, ◌≡◌, ◌⊎◌, refl, ap, ◌∙◌, sym, arith, ==_refl, if◌then◌else◌,
  List, [], ◌∷◌, tabulate, get_or-tabulate, Bool-cases, inl, inr, set, some, leb, le→leb, lt→ltb,
  lt→leb_false, dec_le, ℕ_discrete, replicate, length-tabulate, true,
}
use linux_copy.Gfp.{GfpScalar, gfp, ◌⊗◌}
use linux_copy.Poly.Sum.{dot, sum_congr}
use linux_copy.Poly.Eval.{IsPoly}
use linux_copy.Stream.{OctetStream}
use linux_copy.Matrix.Table.{get_or-table}
use linux_copy.Network.{ret, ◌>>=◌, or_abort}
use linux_copy.Network.Run.{Event, Runs, sent_to, received_from, done}
use linux_copy.Network.Inversion.{run_as}
use linux_copy.Network.Distribute.{
  dispatch, dispatch-Runs, received_from-dispatch, sent_to-dispatch, sent_to-dispatch_own,
}
use linux_copy.Network.Joint.{Joint, Joint-exchange, Runs-then}
use linux_copy.Network.Arrivals.{
  arrivals, arrived, sent_to-arrivals, received_from-arrivals, received_from-arrivals_own,
  received_from-arrivals_after,
}
use linux_copy.ShareBase.{ShareBase, is_in_reconstruction_set, get_reconstruction_vector}
use linux_copy.ShareBase.Reconstruct.{IsValid, get_reconstruction_vector-eval, point_at}
use linux_copy.Share.{reconstruction_vector}
use linux_copy.Share.Collect.{selected}
use linux_copy.Share.Reveal.{party}
use linux_copy.ShareBundle.{ShareBundle, set_secrets, stored, entry, reconstructed}
use linux_copy.ShareBundle.Block.{
  reveal_blocks_dispersed, request_reveals, finish_reveals, with_own_block, calculate_block_secrets,
  write_block,
}
use linux_copy.ShareBundle.Block.Partition.{start_of, count_of, block-inside}
use linux_copy.ShareBundle.Block.Streams.{block_octets, pack_rows-blocks, unpack_row-table}
use linux_copy.ShareBundle.Block.Collect.{
  arrived_outside, set-arrived, from_zero, request_outside, request_inside, finish-Runs,
}

-- What the protocols rely on: the distance of party `i` from Pking is `i`, and there are parties
-- enough for the degree, which is one that the methods support.
pub record IsSupported (c : ShareBase) (degree : ℕ) : Type 0 where
  pub valid : IsValid c
  pub relative : (i : ℕ) → i < c.n_players → c.get_relative i 0 ≡ i
  pub enough_players : degree < c.n_players
  pub supported : (degree ≡ c.threshold) ⊎ (degree ≡ c.threshold * 2)

-- The reconstruction vector takes the shares of the first parties to the secret.
pub reconstruction_vector-secret :
    (s : OctetStream) (c : ShareBase) (degree j : ℕ) (g : GfpScalar → GfpScalar)
    → IsSupported c degree
    → IsPoly (suc degree) g
    → dot (degree + 1) (reconstruction_vector s (party c j) degree) (λ i. g (gfp (i + 1)))
      ≡ g (gfp 0)
unfolding reconstruction_vector
reconstruction_vector-secret s c degree j g h poly =
    ap
      (λ n.
        dot (degree + 1) (get_reconstruction_vector (party c j) (gfp 0) n) (λ i. g (gfp (i + 1))))
      (selected s (party c j) degree h.supported)
    ∙ ap (λ n. dot n (get_reconstruction_vector (party c j) (gfp 0) degree) (λ i. g (gfp (i + 1))))
        {x = degree + 1} {y = suc degree} (omega arith)
    ∙ values
    ∙ get_reconstruction_vector-eval (party c j)
        (record {
          modulo = h.valid.modulo;
          some_player = h.valid.some_player;
          few_players = h.valid.few_players;
        })
        g degree (gfp 0) h.enough_players poly
  where
    values :
        dot
          (suc degree)
          (get_reconstruction_vector (party c j) (gfp 0) degree)
          (λ i. g (gfp (i + 1)))
        ≡ dot
            (suc degree)
            (get_reconstruction_vector (party c j) (gfp 0) degree)
            (λ i. g (point_at (party c j) i))
    values =
        unfold dot in
        sum_congr (suc degree) _ _ (λ i hi.
          ap (λ (x : GfpScalar). get_reconstruction_vector (party c j) (gfp 0) degree i ⊗ x)
            (ap (λ (n : ℕ). g (gfp (n + 1))) {x = i} {y = c.positive_modulo (0 + i) c.n_players}
              (omega (
                arith,
                h.enough_players,
                h.valid.modulo (0 + i),
                mod-eq_of_lt {n = 0 + i} {m = c.n_players} (omega (arith, h.enough_players)),
              ))))

module _ (s : OctetStream) (c : ShareBase) (rows cols degree : ℕ) (g : ℕ → GfpScalar → GfpScalar)
    (h : IsSupported c degree) (old : ℕ → ℕ → GfpScalar) (fresh : ℕ → ℕ → ℕ → GfpScalar) where
  open s use {Octets, empty}
  open c use {n_players}

  -- Party `i`'s part of the sharings, entry `x` by the polynomial `g x`.
  abbrev pub bundle_of : ℕ → ShareBundle
  bundle_of i = record {
    rows = rows;
    cols = cols;
    secrets = old i;
    degree = degree;
    shares = λ x. g x (gfp (i + 1));
  }

  abbrev start : ℕ → ℕ
  start b = start_of n_players rows b

  abbrev count : ℕ → ℕ
  count b = count_of n_players rows b

  -- The stream from party `j` to party `i`.
  abbrev message : ℕ → ℕ → Octets
  message i j = block_octets s n_players rows cols (λ x. g x (gfp (j + 1))) i

  abbrev packs : ℕ → List Octets
  packs j = tabulate n_players (λ i. message i j)

  -- What party `i` ends with.
  unfoldable pub block_revealed : ℕ → ShareBundle
  block_revealed i =
      set_secrets
        (write_block cols (start i) (count i)
          (reconstructed s (party c i) degree (
            entry
              (stored (degree + 1) (count i * cols) (λ k x. g (start i * cols + x) (gfp (k + 1))))))
          (old i))
        (bundle_of i)

  abbrev sends : ℕ → List (Event Octets)
  sends i = if leb i degree then dispatch i 0 (packs i) else []

  abbrev sent : ℕ → List Octets
  sent i = if leb i degree then packs i else replicate n_players empty

  request-Runs :
      (i : ℕ)
      → i < n_players
      → Runs Octets
          (List Octets)
          (request_reveals s (party c i) (bundle_of i) (degree + 1) 0 (replicate n_players empty))
          (sends i)
          (sent i)
  request-Runs i hi = elim (dec_le i degree) [
    | yes member ↦ rw (le→leb i degree member) (
        run_as
          (sym (
            request_inside s (party c i) (bundle_of i) (degree + 1) 0 (replicate n_players empty)
              (packs i) (omega arith) (omega arith)
              (pack_rows-blocks s n_players (bundle_of i) (bundle_of i).shares (omega arith))))
          (Runs-then (λ u. ret (packs i)) refl (dispatch-Runs i 0 (packs i))))
    | no outside ↦ rw (lt→leb_false degree i (omega arith)) (
        run_as
          (sym (
            request_outside s (party c i) (bundle_of i) (degree + 1) 0 (replicate n_players empty)
              (inr (omega arith))))
          done)
  ]

  -- The streams with the party's own.
  own-written :
      (i : ℕ)
      → i < n_players
      → with_own_block s
          (party c i)
          degree
          (sent i)
          (arrived i 0 (degree + 1) (λ j. message i j) empty)
        ≡ some (tabulate (degree + 1) (λ j. message i j))
  unfolding with_own_block is_in_reconstruction_set
  own-written i hi = elim (dec_le i degree) [
    | yes member ↦
        rw (h.relative i hi, le→leb i degree member, lt→ltb i (degree + 1) (omega arith))
          (ap some (
            ap (λ o. set (arrived i 0 (degree + 1) (λ j. message i j) empty) i o)
              (get_or-tabulate n_players (λ b. message b i) i empty hi)
            ∙ ap (λ m. set (arrived m 0 (degree + 1) (λ j. message i j) empty) i (message i m))
                {x = i} {y = 0 + i} (omega arith)
            ∙ set-arrived i 0 (degree + 1) (λ j. message i j) empty (omega arith)
            ∙ from_zero (degree + 1) (λ j. message i j)))
    | no outside ↦
        rw (h.relative i hi, lt→leb_false degree i (omega arith))
          (ap some (
            arrived_outside i 0 (degree + 1) (λ j. message i j) empty (inr (omega arith))
            ∙ from_zero (degree + 1) (λ j. message i j)))
  ]

  abbrev start_fits : (i : ℕ) → i < n_players → leb (start i + count i) rows ≡ true
  start_fits i hi = le→leb (start i + count i) rows (block-inside n_players rows (omega arith) i hi)

  block_computed :
      (i : ℕ)
      → i < n_players
      → calculate_block_secrets s
          (party c i)
          (bundle_of i)
          (start i)
          (count i)
          (fresh i)
          (tabulate (degree + 1) (λ j. message i j))
        ≡ ret (block_revealed i)
  unfolding calculate_block_secrets block_revealed
  block_computed i hi =
      rw
        (
          calculate_block_secrets,
          unpack_row-table s (degree + 1) (count i * cols)
              (λ k x. g (start i * cols + x) (gfp (k + 1))) (fresh i),
          selected s (party c i) degree h.supported,
          ==_refl degree,
          start_fits i hi,
        )
        refl

  -- What a party does when the streams have arrived.
  received :
      (i : ℕ)
      → i < n_players
      → (or_abort (
            with_own_block s
              (party c i)
              degree
              (sent i)
              (arrived i 0 (degree + 1) (λ j. message i j) empty))
          >>= λ os.
              calculate_block_secrets s (party c i) (bundle_of i) (start i) (count i) (fresh i) os)
        ≡ ret (block_revealed i)
  received i hi =
      ap
        (λ m. or_abort m >>= λ os.
          calculate_block_secrets s (party c i) (bundle_of i) (start i) (count i) (fresh i) os)
        (own-written i hi)
      ∙ block_computed i hi

  same_messages :
      (i j : ℕ)
      → i < n_players
      → j < n_players
      → received_from j (arrivals i 0 (degree + 1) (λ k. message i k)) ≡ sent_to i (sends j)
  same_messages i j hi hj = elim (dec_le j degree) [
    | no outside ↦
        rw (lt→leb_false degree j (omega arith))
          (received_from-arrivals_after i 0 (degree + 1) (λ k. message i k) j (omega arith))
    | yes member ↦ rw (le→leb j degree member) (elim (ℕ_discrete j i) [
      | yes own ↦
          ap (λ k. received_from k (arrivals i 0 (degree + 1) (λ k. message i k))) own
          ∙ received_from-arrivals_own i 0 (degree + 1) (λ k. message i k)
          ∙ sym (sent_to-dispatch_own i 0 (packs i))
          ∙ ap (λ k. sent_to i (dispatch k 0 (packs k))) (sym own)
      | no other ↦
          received_from-arrivals i 0 (degree + 1) (λ k. message i k) j other (omega arith)
            (omega arith)
          ∙ sym (
              ap (λ k. sent_to k (dispatch j 0 (packs j))) {x = i} {y = 0 + i} (omega arith)
              ∙ sent_to-dispatch j 0 i (packs j) empty
                  (omega (arith, length-tabulate n_players (λ b. message b j))) (omega arith)
              ∙ ap (λ o. o ∷ []) (get_or-tabulate n_players (λ b. message b j) i empty hi))
    ])
  ]

  -- Each party computes its block, over channels that deliver what was sent.
  pub reveal_blocks-Joint :
      Joint Octets ShareBundle n_players
        (λ i. reveal_blocks_dispersed s (party c i) (bundle_of i) (fresh i))
        block_revealed
  unfolding reveal_blocks_dispersed
  reveal_blocks-Joint =
      Joint-exchange n_players
        (λ i.
          request_reveals s (party c i) (bundle_of i) (degree + 1) 0 (replicate n_players empty))
        (λ i os_send. finish_reveals s (party c i) (degree + 1) 0 >>= λ os.
          or_abort (with_own_block s (party c i) degree os_send os) >>= λ os'.
          calculate_block_secrets s (party c i) (bundle_of i) (start i) (count i) (fresh i) os')
        sent block_revealed sends (λ i. arrivals i 0 (degree + 1) (λ j. message i j)) request-Runs
        (λ i hi.
          Runs-then _ (received i hi) (finish-Runs s (party c i) (degree + 1) 0 (λ j. message i j)))
        only_sends (λ i j. sent_to-arrivals i 0 (degree + 1) (λ k. message i k) j) same_messages
    where
      only_sends : (i j : ℕ) → received_from j (sends i) ≡ []
      only_sends i j = elim (Bool-cases (leb i degree)) [
        | inl member ↦ rw member (received_from-dispatch i 0 j (packs i))
        | inr outside ↦ rw outside refl
      ]

  -- The secrets of the block are the values at 0.
  pub block_revealed-secret :
      (i x : ℕ)
      → i < n_players
      → start i * cols ≤ x
      → x < (start i + count i) * cols
      → IsPoly (suc degree) (g x)
      → (block_revealed i).secrets x ≡ g x (gfp 0)
  unfolding block_revealed write_block set_secrets reconstructed
  block_revealed-secret i x hi low high poly =
      rw (le→leb (start i * cols) x low, lt→ltb x ((start i + count i) * cols) high)
        (unpacked ∙ reconstruction_vector-secret s c degree i (g x) h poly)
    where
      shares_of_block : ℕ → ℕ → GfpScalar
      shares_of_block k y = g (start i * cols + y) (gfp (k + 1))

      unpacked :
          dot (degree + 1) (reconstruction_vector s (party c i) degree) (λ k.
            entry (stored (degree + 1) (count i * cols) shares_of_block) k (x - start i * cols))
          ≡ dot (degree + 1) (reconstruction_vector s (party c i) degree) (λ k. g x (gfp (k + 1)))
      unpacked =
          unfold dot in
          sum_congr (degree + 1) _ _ (λ k hk.
            ap (λ (y : GfpScalar). reconstruction_vector s (party c i) degree k ⊗ y)
              (get_or-table (degree + 1) (count i * cols) shares_of_block k (x - start i * cols) hk
                  (omega arith)
                ∙ ap (λ n. g n (gfp (k + 1))) {x = start i * cols + (x - start i * cols)} {y = x}
                    (omega arith)))

-- ===== src/ShareBundle/Reveal/Runs.antt =====
-- `ShareBundle::reveal` and `reveal_truncate`: what each party does.
use linux_copy.Common.{
  ℕ, zero, suc, ◌+◌, ◌*◌, ◌<◌, ◌≡◌, refl, ap, ap₂, ◌∙◌, sym, arith, ◌==◌, ==_refl, ==_ne, ==_iff,
  if◌then◌else◌, List, [], ◌∷◌, ◌++◌, length, Bool-cases, inl, inr, some, leb, le→leb, lt→ltb,
  lt→leb_false, dec_le, subst, drop, fun_ext,
}
use linux_copy.Gfp.{GfpScalar, gfp, ◌⊗◌}
use linux_copy.Poly.Sum.{dot, sum_congr}
use linux_copy.Poly.Eval.{IsPoly}
use linux_copy.Stream.{OctetStream}
use linux_copy.Stream.Scalars.{get_length-empty}
use linux_copy.Matrix.Pack.{pack_matrix, unpack_matrix, unpack_row, unpack_row_loop}
use linux_copy.Matrix.Table.{table, take-table, get_or-table}
use linux_copy.Network.{Proc, ret, receive, ◌>>=◌}
use linux_copy.Network.Run.{Event, out, inc, Runs, done, sends, receives}
use linux_copy.Network.Inversion.{run_as, Runs-bind, each, each-Runs}
use linux_copy.Network.Joint.{Runs-then}
use linux_copy.Network.Arrivals.{arrivals, arrived, length-arrived}
use linux_copy.ShareBase.{ShareBase, is_in_reconstruction_set}
use linux_copy.Share.{collect, reconstruction_vector}
use linux_copy.Share.Collect.{selected}
use linux_copy.Share.Reveal.{party}
use linux_copy.ShareBundle.{
  ShareBundle, set_secrets, stored, entry, shaped, linear, size, reconstructed, calculate_secrets,
  collected_sharings, reconstruct_secrets, reveal_to_party, reveal_to_pking, send_shares,
  send_secrets, receive_secrets,
}
use linux_copy.ShareBundle.Block.Streams.{octets_of, unpack_loop-table}
use linux_copy.ShareBundle.Block.Collect.{arrived_outside}
use linux_copy.ShareBundle.Block.Reveal.{IsSupported, bundle_of, reconstruction_vector-secret}
use linux_copy.ShareBundle.Reveal.{share_secrets}

module _ (s : OctetStream) (c : ShareBase) (rows cols degree : ℕ) (g : ℕ → GfpScalar → GfpScalar)
    (h : IsSupported c degree) (old : ℕ → ℕ → GfpScalar) (fresh : ℕ → ℕ → ℕ → GfpScalar)
    (update : ShareBundle → ShareBundle) where
  open s use {Octets, empty}
  open c use {n_players}

  abbrev self_at : ℕ → ShareBundle
  self_at i = bundle_of s c rows cols degree g h old fresh i

  -- A party's shares in a stream.
  abbrev pub share_octets : ℕ → Octets
  share_octets j = octets_of s (rows * cols) (λ x. g x (gfp (j + 1)))

  collect-arrivals :
      (rounds p : ℕ)
      → Runs Octets
          (List Octets)
          (collect s (party c 0) rounds p)
          (arrivals 0 p rounds (λ j. share_octets j))
          (arrived 0 p rounds (λ j. share_octets j) empty)
  unfolding collect
  collect-arrivals zero p = done
  collect-arrivals (suc rounds) p = elim (Bool-cases (0 == p)) [
    | inl own ↦
        rw (collect, own)
          (Runs-then (λ os. ret (empty ∷ os)) refl (collect-arrivals rounds (suc p)))
    | inr other ↦
        rw (collect, other)
          (receives
            (Runs-then (λ os. ret (share_octets p ∷ os)) refl (collect-arrivals rounds (suc p))))
  ]

  -- The matrix that Pking unpacks: its own row is not in the streams.
  unfoldable pub king_rows : ℕ → ℕ → GfpScalar
  king_rows zero x = fresh 0 0 x
  king_rows (suc k) x = g x (gfp (suc k + 1))

  abbrev king_streams : List Octets
  king_streams = arrived 0 0 (suc degree) (λ j. share_octets j) empty

  king_unpacked :
      unpack_row s (stored (degree + 1) (rows * cols) (fresh 0)) king_streams
      ≡ some (stored (degree + 1) (rows * cols) king_rows)
  unfolding unpack_row unpack_row_loop king_rows
  king_unpacked =
      subst
        (λ m.
          unpack_row s (stored m (rows * cols) (fresh 0)) king_streams
          ≡ some (stored m (rows * cols) king_rows))
        {x = suc degree} {y = degree + 1} (omega arith)
        (rw
          (
            (==_iff (suc degree) (suc (length (arrived 0 1 degree (λ j. share_octets j) empty)))).1
                (ap suc (sym (length-arrived 0 1 degree (λ j. share_octets j) empty))),
            get_length-empty s,
          )
          (ap (λ l. some (record { rows = suc degree; cols = rows * cols; entries = l }))
            (ap₂ ◌++◌ (take-table degree (rows * cols) (fresh 0)) (
              ap (λ os. unpack_row_loop s (rows * cols) (drop (rows * cols) fresh_table) os)
                (arrived_outside 0 1 degree (λ j. share_octets j) empty (inl (omega arith)))
              ∙ unpack_loop-table s degree (rows * cols) (λ k x. g x (gfp (1 + k + 1)))
                  (drop (rows * cols) fresh_table)
              ∙ ap (table degree (rows * cols))
                  (fun_ext (λ k. fun_ext (λ x. ap (λ n. g x (gfp (n + 1))) (omega arith))))))))
    where
      fresh_table : List GfpScalar
      fresh_table = table (suc degree) (rows * cols) (fresh 0)

  -- What Pking computes from the shares.
  abbrev pub king_sharings : ℕ → ℕ → GfpScalar
  king_sharings i x =
      if i == 0 then g x (gfp (0 + 1)) else entry (stored (degree + 1) (rows * cols) king_rows) i x

  unfoldable pub king_secrets : ℕ → GfpScalar
  king_secrets x = reconstructed s (party c 0) degree king_sharings x

  near : c.get_relative 0 0 ≡ 0
  near = h.relative 0 h.valid.some_player

  king_computes :
      calculate_secrets s
        (party c 0)
        degree
        (rows * cols)
        (λ x. g x (gfp (0 + 1)))
        (fresh 0)
        king_streams
      ≡ ret (λ x. king_secrets x)
  unfolding calculate_secrets collected_sharings is_in_reconstruction_set
  king_computes =
      rw
        (
          calculate_secrets,
          collected_sharings,
          king_unpacked,
          near,
          le→leb 0 degree (omega arith),
          lt→ltb 0 (degree + 1) (omega arith),
          selected s (party c 0) degree h.supported,
          ==_refl degree,
        )
        (unfold king_secrets in refl)

  pub king_secrets-value :
      (x : ℕ) → x < rows * cols → IsPoly (suc degree) (g x) → king_secrets x ≡ g x (gfp 0)
  unfolding king_secrets reconstructed
  king_secrets-value x hx poly =
      same_shares ∙ reconstruction_vector-secret s c degree 0 (g x) h poly
    where
      share_at : (k : ℕ) → k < degree + 1 → king_sharings k x ≡ g x (gfp (k + 1))
      share_at zero hk = refl
      share_at (suc k) hk = rw (==_ne (suc k) 0 (omega arith)) (
          get_or-table (degree + 1) (rows * cols) king_rows (suc k) x hk hx
          ∙ unfold king_rows in refl)

      same_shares :
          dot (degree + 1) (reconstruction_vector s (party c 0) degree) (λ k. king_sharings k x)
          ≡ dot (degree + 1) (reconstruction_vector s (party c 0) degree) (λ k. g x (gfp (k + 1)))
      same_shares =
          unfold dot in
          sum_congr (degree + 1) _ _ (λ k hk.
            ap (λ (y : GfpScalar). reconstruction_vector s (party c 0) degree k ⊗ y)
              (share_at k hk))

  -- What the parties send and receive.
  abbrev pub king_bundle : ShareBundle
  king_bundle = set_secrets king_secrets (self_at 0)

  abbrev pub secret_octets : Octets
  secret_octets = pack_matrix s (shaped (update king_bundle) (update king_bundle).secrets) empty

  abbrev pub reveal_trace : ℕ → List (Event Octets)
  reveal_trace zero =
      arrivals 0 0 (degree + 1) (λ j. share_octets j) ++ each 0 0 n_players secret_octets
  reveal_trace (suc j) =
      (if leb (suc j) degree then out 0 (share_octets (suc j)) ∷ [] else [])
      ++ (inc 0 secret_octets ∷ [])

  unfoldable pub revealed_bundle : ℕ → ShareBundle
  unfolding unpack_matrix
  revealed_bundle zero = update king_bundle
  revealed_bundle (suc j) =
      set_secrets (linear (unpack_matrix s (shaped (self_at (suc j)) (old (suc j))) secret_octets))
        (self_at (suc j))

  abbrev revealing : ℕ → Proc Octets ShareBundle
  revealing i = reveal_to_pking s (party c i) (self_at i) (fresh i) >>= λ b.
      share_secrets s (party c i) b update

  king_reveals :
      Runs Octets ShareBundle
        (reveal_to_pking s (party c 0) (self_at 0) (fresh 0))
        (arrivals 0 0 (degree + 1) (λ j. share_octets j))
        king_bundle
  unfolding reveal_to_pking reveal_to_party reconstruct_secrets size
  king_reveals =
      Runs-then then_calculate
        (ap (λ n. then_calculate (arrived 0 0 n (λ j. share_octets j) empty)) {x = degree + 1}
            {y = suc degree} (omega arith)
          ∙ ap (λ p. p >>= λ secrets. ret (set_secrets secrets (self_at 0))) king_computes)
        (collect-arrivals (degree + 1) 0)
    where
      then_calculate : List Octets → Proc Octets ShareBundle
      then_calculate os =
          calculate_secrets s (party c 0) degree (rows * cols) (λ x. g x (gfp (0 + 1))) (fresh 0) os
          >>= λ secrets. ret (set_secrets secrets (self_at 0))

  other_reveals :
      (j : ℕ)
      → suc j < n_players
      → Runs Octets ShareBundle
          (reveal_to_pking s (party c (suc j)) (self_at (suc j)) (fresh (suc j)))
          (if leb (suc j) degree then out 0 (share_octets (suc j)) ∷ [] else [])
          (self_at (suc j))
  unfolding reveal_to_pking reveal_to_party send_shares pack_matrix is_in_reconstruction_set
  other_reveals j hj = elim (dec_le (suc j) degree) [
    | yes member ↦
        rw
          (
            reveal_to_party,
            ==_ne (suc j) 0 (omega arith),
            h.relative (suc j) hj,
            le→leb (suc j) degree member,
          )
          (sends done)
    | no outside ↦
        rw
          (
            reveal_to_party,
            ==_ne (suc j) 0 (omega arith),
            h.relative (suc j) hj,
            lt→leb_false degree (suc j) (omega arith),
          )
          done
  ]

  other_receives :
      (j : ℕ)
      → share_secrets s (party c (suc j)) (self_at (suc j)) update
        ≡ receive 0 (λ o. ret (
            set_secrets
              (linear (unpack_matrix s (shaped (self_at (suc j)) (old (suc j))) o))
              (self_at (suc j))))
  unfolding share_secrets receive_secrets
  other_receives j = rw (share_secrets, ==_ne (suc j) 0 (omega arith)) refl

  pub party-Runs :
      (i : ℕ)
      → i < n_players
      → Runs Octets ShareBundle (revealing i) (reveal_trace i) (revealed_bundle i)
  unfolding share_secrets send_secrets receive_secrets revealed_bundle
  party-Runs zero hi =
      Runs-bind (λ b. share_secrets s (party c 0) b update) king_reveals
        (Runs-then (λ u. ret (update king_bundle)) refl (each-Runs 0 0 n_players secret_octets))
  party-Runs (suc j) hi =
      Runs-bind (λ b. share_secrets s (party c (suc j)) b update) (other_reveals j hi)
        (run_as (sym (other_receives j)) (receives done))

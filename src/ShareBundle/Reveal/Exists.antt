-- ===== src/ShareBundle/Reveal/Exists.antt =====
-- The joint runs of `ShareBundle::reveal` and `reveal_truncate`.
use mathlib.Core.List.{append-nil}
use linux_copy.Common.{
  ℕ, zero, suc, ◌+◌, ◌*◌, ◌<◌, ◌≡◌, refl, ap, ◌∙◌, sym, arith, ==_ne, List, [], ◌++◌, Bool-cases,
  inl, inr, leb, le→leb, lt→leb_false, dec_le, get_or, get_or-tabulate,
}
use linux_copy.Scalar.{truncate}
use linux_copy.Gfp.{GfpScalar, gfp}
use linux_copy.Poly.Eval.{IsPoly}
use linux_copy.Stream.{OctetStream}
use linux_copy.Matrix.Pack.{pack_matrix, unpack_matrix}
use linux_copy.Network.{◌>>=◌}
use linux_copy.Network.Run.{Event, sent_to, received_from}
use linux_copy.Network.Inversion.{
  each, sent_to-each, sent_to-each_own, received_from-each, sent_to-append, received_from-append,
}
use linux_copy.Network.Joint.{Joint}
use linux_copy.Network.Arrivals.{
  arrivals, sent_to-arrivals, received_from-arrivals, received_from-arrivals_own,
  received_from-arrivals_after,
}
use linux_copy.ShareBase.{ShareBase}
use linux_copy.Share.Reveal.{party}
use linux_copy.ShareBundle.{ShareBundle, set_secrets, reveal_to_pking}
use linux_copy.ShareBundle.Prg.Streams.{consume-octets_of}
use linux_copy.ShareBundle.Block.Reveal.{IsSupported, bundle_of}
use linux_copy.ShareBundle.Reveal.{share_secrets, reveal, reveal_truncate, truncate_secrets}
use linux_copy.ShareBundle.Reveal.Runs.{
  share_octets, secret_octets, king_bundle, king_secrets-value, reveal_trace, revealed_bundle,
  party-Runs,
}

module _ (s : OctetStream) (c : ShareBase) (rows cols degree : ℕ) (g : ℕ → GfpScalar → GfpScalar)
    (h : IsSupported c degree) (old : ℕ → ℕ → GfpScalar) (fresh : ℕ → ℕ → ℕ → GfpScalar) where
  open s use {Octets, empty}
  open c use {n_players}

  abbrev start_bundle : ℕ → ShareBundle
  start_bundle i = bundle_of s c rows cols degree g h old fresh i

  module _ (update : ShareBundle → ShareBundle) where
    abbrev trace : ℕ → List (Event Octets)
    trace i = reveal_trace s c rows cols degree g h old fresh update i

    abbrev message : ℕ → Octets
    message j = share_octets s c rows cols degree g h old fresh update j

    abbrev secrets_message : Octets
    secrets_message = secret_octets s c rows cols degree g h old fresh update

    abbrev gathered : List (Event Octets)
    gathered = arrivals 0 0 (degree + 1) (λ j. message j)

    king_receives : (j : ℕ) → received_from j (trace 0) ≡ received_from j gathered
    king_receives j =
        received_from-append j gathered (each 0 0 n_players secrets_message)
        ∙ ap (λ l. received_from j gathered ++ l)
            (received_from-each 0 0 n_players j secrets_message)
        ∙ append-nil _

    king_sends : (i : ℕ) → sent_to i (trace 0) ≡ sent_to i (each 0 0 n_players secrets_message)
    king_sends i =
        sent_to-append i gathered (each 0 0 n_players secrets_message)
        ∙ ap (λ l. l ++ sent_to i (each 0 0 n_players secrets_message))
            (sent_to-arrivals 0 0 (degree + 1) (λ j. message j) i)

    nothing_received : (i j : ℕ) → received_from (suc j) (trace (suc i)) ≡ []
    nothing_received i j = elim (Bool-cases (leb (suc i) degree)) [
      | inl member ↦ rw (member, ==_ne 0 (suc j) (omega arith)) refl
      | inr outside ↦ rw (outside, ==_ne 0 (suc j) (omega arith)) refl
    ]

    nothing_sent : (i j : ℕ) → sent_to (suc i) (trace (suc j)) ≡ []
    nothing_sent i j = elim (Bool-cases (leb (suc j) degree)) [
      | inl member ↦ rw (member, ==_ne 0 (suc i) (omega arith)) refl
      | inr outside ↦ rw outside refl
    ]

    delivered :
        (i j : ℕ) → i < n_players → j < n_players → received_from j (trace i) ≡ sent_to i (trace j)
    delivered zero zero hi hj =
        king_receives 0
        ∙ received_from-arrivals_own 0 0 (degree + 1) (λ j. message j)
        ∙ sym (king_sends 0 ∙ sent_to-each_own 0 0 n_players secrets_message)
    delivered zero (suc j) hi hj = king_receives (suc j) ∙ (elim (dec_le (suc j) degree) [
      | yes member ↦ rw (le→leb (suc j) degree member) (
          received_from-arrivals 0 0 (degree + 1) (λ j. message j) (suc j) (omega arith)
            (omega arith) (omega arith))
      | no outside ↦
          rw (lt→leb_false degree (suc j) (omega arith))
            (received_from-arrivals_after 0 0 (degree + 1) (λ j. message j) (suc j) (omega arith))
    ])
    delivered (suc i) zero hi hj =
        (elim (dec_le (suc i) degree) [
          | yes member ↦ rw (le→leb (suc i) degree member) refl
          | no outside ↦ rw (lt→leb_false degree (suc i) (omega arith)) refl
        ])
        ∙ sym (
            king_sends (suc i)
            ∙ sent_to-each 0 0 n_players (suc i) secrets_message (omega arith) (omega arith)
                (omega arith))
    delivered (suc i) (suc j) hi hj = nothing_received i j ∙ sym (nothing_sent i j)

    all_revealed :
        Joint Octets ShareBundle n_players
          (λ i. reveal_to_pking s (party c i) (start_bundle i) (fresh i) >>= λ b.
            share_secrets s (party c i) b update)
          (λ i. revealed_bundle s c rows cols degree g h old fresh update i)
    all_revealed = record {
      traces = trace;
      runs = party-Runs s c rows cols degree g h old fresh update;
      delivered = delivered;
    }

    -- All have the secrets that Pking has sent.
    secret-updated :
        (i x : ℕ)
        → (update (king_bundle s c rows cols degree g h old fresh update)).rows
            * (update (king_bundle s c rows cols degree g h old fresh update)).cols
          ≡ rows * cols
        → x < rows * cols
        → (revealed_bundle s c rows cols degree g h old fresh update i).secrets x
          ≡ (update (king_bundle s c rows cols degree g h old fresh update)).secrets x
    unfolding revealed_bundle unpack_matrix pack_matrix set_secrets
    secret-updated zero x same hx = refl
    secret-updated (suc i) x same hx =
        ap (λ l. get_or l x (gfp 0))
          (ap (λ n. (s.consume secrets_message n).0) (sym same) ∙ consume-octets_of s _ _)
        ∙ get_or-tabulate _ _ x (gfp 0) (omega arith)

  -- What the parties end with.
  abbrev pub opened : ℕ → ShareBundle
  opened i = revealed_bundle s c rows cols degree g h old fresh (λ b. b) i

  pub reveal-Joint :
      Joint Octets ShareBundle n_players
        (λ i. reveal s (party c i) (start_bundle i) (fresh i))
        opened
  unfolding reveal
  reveal-Joint = all_revealed (λ b. b)

  pub opened-secret :
      (i x : ℕ) → x < rows * cols → IsPoly (suc degree) (g x) → (opened i).secrets x ≡ g x (gfp 0)
  unfolding set_secrets
  opened-secret i x hx poly =
      secret-updated (λ b. b) i x refl hx
      ∙ king_secrets-value s c rows cols degree g h old fresh (λ b. b) x hx poly

  abbrev pub truncated : (ℕ → ℕ) → ℕ → ShareBundle
  truncated precision i =
      revealed_bundle s c rows cols degree g h old fresh (truncate_secrets precision) i

  pub reveal_truncate-Joint :
      (precision : ℕ → ℕ)
      → Joint Octets ShareBundle n_players
          (λ i. reveal_truncate s (party c i) (start_bundle i) precision (fresh i))
          (truncated precision)
  unfolding reveal_truncate
  reveal_truncate-Joint precision = all_revealed (truncate_secrets precision)

  pub truncated-secret :
      (precision : ℕ → ℕ) (i x : ℕ)
      → x < rows * cols
      → IsPoly (suc degree) (g x)
      → (truncated precision i).secrets x ≡ gfp (truncate (g x (gfp 0)).value (precision x))
  unfolding truncate_secrets set_secrets
  truncated-secret precision i x hx poly =
      secret-updated (truncate_secrets precision) i x refl hx
      ∙ ap (λ (y : GfpScalar). gfp (truncate y.value (precision x)))
          (king_secrets-value s c rows cols degree g h old fresh (truncate_secrets precision) x hx
            poly)

  pub opened-cols : (i : ℕ) → (opened i).cols ≡ cols
  unfolding revealed_bundle set_secrets
  opened-cols zero = refl
  opened-cols (suc i) = refl

  pub opened-degree : (i : ℕ) → (opened i).degree ≡ degree
  unfolding revealed_bundle set_secrets
  opened-degree zero = refl
  opened-degree (suc i) = refl

-- `ShareBundle::reveal_truncate` for the degrees t and 2t, with party 0 as Pking. When the parties'
-- shares of each entry are the values at their points of a polynomial of that degree, there are runs
-- of all the parties that deliver to each what was sent to it and in which each returns, and all end
-- with the values of the polynomials at 0, truncated by the precision of the entry.
pub reveal_truncate-truncated :
    (s : OctetStream) (c : ShareBase) (rows cols degree : ℕ) (g : ℕ → GfpScalar → GfpScalar)
    (h : IsSupported c degree)
    → ((x : ℕ) → x < rows * cols → IsPoly (suc degree) (g x))
    → (old : ℕ → ℕ → GfpScalar) (fresh : ℕ → ℕ → ℕ → GfpScalar) (precision : ℕ → ℕ)
    → (results : ℕ → ShareBundle) × Joint s.Octets ShareBundle c.n_players
        (λ i.
          reveal_truncate s
            (party c i)
            (bundle_of s c rows cols degree g h old fresh i)
            precision
            (fresh i))
        results
      × ((i x : ℕ)
          → x < rows * cols
          → (results i).secrets x ≡ gfp (truncate (g x (gfp 0)).value (precision x)))
reveal_truncate-truncated s c rows cols degree g h poly old fresh precision = (
  truncated s c rows cols degree g h old fresh precision,
  reveal_truncate-Joint s c rows cols degree g h old fresh precision,
  λ i x hx. truncated-secret s c rows cols degree g h old fresh precision i x hx (poly x hx),
)

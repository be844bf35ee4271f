-- ===== src/Share/Reveal/Exists.antt =====
-- The joint runs of `Share::reveal`: that there is one.
use mathlib.Core.List.{append-nil}
use linux_copy.Common.{
  ℕ, zero, suc, ◌+◌, ◌<◌, ◌≡◌, refl, ap, ◌∙◌, sym, subst, arith, List, [], ◌∷◌, ◌++◌, tabulate,
  length-tabulate, get_or-tabulate, leb, leb→le, leb_false→lt, ==_ne, Bool-cases, inl, inr,
  if◌then◌else◌,
}
use linux_copy.Gfp.{GfpScalar, gfp}
use linux_copy.Stream.{OctetStream, pack}
use linux_copy.Stream.Scalars.{unpack-pack}
use linux_copy.Network.{◌>>=◌, send_each, ret}
use linux_copy.Network.Run.{
  Event, out, inc, Runs, done, sends, receives, sent_to, received_from, Delivered,
}
use linux_copy.Network.Inversion.{
  Runs-bind, run_as, each, each-Runs, sent_to-each, received_from-each, sent_to-append,
  received_from-append, sent_to-each_own,
}
use linux_copy.ShareBase.{ShareBase}
use linux_copy.Share.{Share, reveal, collect}
use linux_copy.Share.Collect.{
  receipts, sent_to-receipts, received_from-receipts, received_from-receipts_before,
  received_from-receipts_after, collect-Runs,
}
use linux_copy.Share.Reveal.{
  party, IsRevealed, share_of, program, revealed, compute, finish, king_program, member_program,
  other_program, compute-ret,
}

module _ (s : OctetStream) (c : ShareBase) (degree : ℕ) (g : GfpScalar → GfpScalar)
    (h : IsRevealed c degree g) (old : ℕ → GfpScalar) (fresh : ℕ → ℕ → GfpScalar) where
  open s use {Octets, empty}

  packed_share : ℕ → Octets
  packed_share j = pack s (g (gfp (suc j + 1)))

  packed_secret : Octets
  packed_secret = pack s (g (gfp 0))

  trace_of : ℕ → List (Event Octets)
  trace_of zero = receipts 1 (tabulate degree packed_share) ++ each 0 0 c.n_players packed_secret
  trace_of (suc j) =
      if leb (suc j) degree
      then out 0 (packed_share j) ∷ inc 0 packed_secret ∷ []
      else inc 0 packed_secret ∷ []

  finish-Runs :
      (x : GfpScalar)
      → Runs Octets Share
          (finish s c degree g h old fresh x)
          (each 0 0 c.n_players (pack s x))
          (revealed s c degree g h old fresh 0 x)
  unfolding finish
  finish-Runs x =
      subst
        (λ t.
          Runs Octets Share
            (send_each 0 0 c.n_players (pack s x) >>= λ _.
              ret (revealed s c degree g h old fresh 0 x))
            t (revealed s c degree g h old fresh 0 x))
        (append-nil (each 0 0 c.n_players (pack s x)))
        (Runs-bind (λ _. ret (revealed s c degree g h old fresh 0 x))
          (each-Runs 0 0 c.n_players (pack s x)) done)

  party-Runs :
      (i : ℕ)
      → i < c.n_players
      → Runs Octets Share
          (program s c degree g h old fresh i)
          (trace_of i)
          (revealed s c degree g h old fresh i (g (gfp 0)))
  unfolding trace_of packed_share packed_secret
  party-Runs zero hi = run_as (sym (king_program s c degree g h old fresh)) (
      Runs-bind
        (λ os. compute s c degree g h old fresh (empty ∷ os) >>= finish s c degree g h old fresh)
        (subst
          (λ n.
            Runs Octets (List Octets) (collect s (party c 0) n 1)
              (receipts 1 (tabulate degree packed_share)) (tabulate degree packed_share))
          (length-tabulate degree packed_share)
          (collect-Runs s (party c 0) 1 (tabulate degree packed_share) (omega arith)))
        (run_as
          (sym (
            ap (λ p. p >>= finish s c degree g h old fresh)
              (compute-ret s c degree g h old fresh (tabulate degree packed_share)
                (length-tabulate degree packed_share)
                (λ k hk. get_or-tabulate degree packed_share k empty hk))))
          (finish-Runs (g (gfp 0)))))
  party-Runs (suc j) hi =
      subst
        (λ x.
          Runs Octets Share (program s c degree g h old fresh (suc j)) (trace_of (suc j))
            (revealed s c degree g h old fresh (suc j) x))
        (unpack-pack s (g (gfp 0)))
        (elim (Bool-cases (leb (suc j) degree)) [
          | inl member ↦ rw member (
              run_as
                (sym (member_program s c degree g h old fresh j (leb→le (suc j) degree member)))
                (sends (receives done)))
          | inr outside ↦ rw outside (
              run_as
                (sym (
                  other_program s c degree g h old fresh j (leb_false→lt (suc j) degree outside)
                    hi))
                (receives done))
        ])

  received_by_king :
      (j : ℕ)
      → received_from j (trace_of 0) ≡ received_from j (receipts 1 (tabulate degree packed_share))
  unfolding trace_of
  received_by_king j =
      received_from-append j (receipts 1 (tabulate degree packed_share)) _
      ∙ ap (λ l. received_from j (receipts 1 (tabulate degree packed_share)) ++ l)
          (received_from-each 0 0 c.n_players j packed_secret)
      ∙ append-nil _

  sent_by_king : (i : ℕ) → sent_to i (trace_of 0) ≡ sent_to i (each 0 0 c.n_players packed_secret)
  unfolding trace_of
  sent_by_king i =
      sent_to-append i (receipts 1 (tabulate degree packed_share)) _
      ∙ ap (λ l. l ++ sent_to i (each 0 0 c.n_players packed_secret))
          (sent_to-receipts i 1 (tabulate degree packed_share))

  share_received :
      (j : ℕ)
      → received_from (suc j) (receipts 1 (tabulate degree packed_share))
        ≡ sent_to 0 (trace_of (suc j))
  unfolding trace_of
  share_received j = elim (Bool-cases (leb (suc j) degree)) [
    | inl member ↦
        let le = leb→le (suc j) degree member in
        rw member (
          ap (λ k. received_from k (receipts 1 (tabulate degree packed_share))) {x = suc j}
            {y = 1 + j} (omega arith)
          ∙ received_from-receipts j 1 (tabulate degree packed_share) empty
              (omega (arith, length-tabulate degree packed_share))
          ∙ ap (λ o. o ∷ []) (get_or-tabulate degree packed_share j empty le))
    | inr outside ↦
        let lt = leb_false→lt (suc j) degree outside in
        rw outside (
          received_from-receipts_after (suc j) 1 (tabulate degree packed_share)
            (omega (arith, length-tabulate degree packed_share)))
  ]

  -- The parties other than Pking do not talk to each other.
  nothing_received : (i j : ℕ) → received_from (suc j) (trace_of (suc i)) ≡ []
  unfolding trace_of
  nothing_received i j = elim (Bool-cases (leb (suc i) degree)) [
    | inl member ↦ rw (member, ==_ne 0 (suc j) (omega arith)) refl
    | inr outside ↦ rw (outside, ==_ne 0 (suc j) (omega arith)) refl
  ]

  nothing_sent : (i j : ℕ) → sent_to (suc i) (trace_of (suc j)) ≡ []
  unfolding trace_of
  nothing_sent i j = elim (Bool-cases (leb (suc j) degree)) [
    | inl member ↦ rw (member, ==_ne 0 (suc i) (omega arith)) refl
    | inr outside ↦ rw outside refl
  ]

  delivered : Delivered c.n_players trace_of
  unfolding trace_of
  delivered zero zero hi hj =
      received_by_king 0
      ∙ received_from-receipts_before 0 1 (tabulate degree packed_share) (omega arith)
      ∙ sym (sent_by_king 0 ∙ sent_to-each_own 0 0 c.n_players packed_secret)
  delivered zero (suc j) hi hj = received_by_king (suc j) ∙ share_received j
  delivered (suc i) zero hi hj =
      elim (Bool-cases (leb (suc i) degree))
        as (λ _. received_from 0 (trace_of (suc i)) ≡ packed_secret ∷ []) [
          | inl member ↦ rw member refl
          | inr outside ↦ rw outside refl
        ]
      ∙ sym (
          sent_by_king (suc i)
          ∙ sent_to-each 0 0 c.n_players (suc i) packed_secret (omega arith) (omega arith)
              (omega arith))
  delivered (suc i) (suc j) hi hj = nothing_received i j ∙ sym (nothing_sent i j)

-- `reveal` does end: on the values of a polynomial as above, there are runs of all the parties
-- that deliver to each what was sent to it, and in which each returns with the value at 0.
pub reveal-Runs :
    (s : OctetStream) (c : ShareBase) (degree : ℕ) (g : GfpScalar → GfpScalar)
    → IsRevealed c degree g
    → (old : ℕ → GfpScalar) (fresh : ℕ → ℕ → GfpScalar)
    → (traces : ℕ → List (Event s.Octets)) × (results : ℕ → Share) × ((i : ℕ)
        → i < c.n_players
        → Runs s.Octets Share
            (reveal s (party c i) (share_of degree g old i) (fresh i))
            (traces i)
            (results i))
      × Delivered c.n_players traces
      × ((i : ℕ) → i < c.n_players → (results i).secret ≡ g (gfp 0))
unfolding program revealed
reveal-Runs s c degree g h old fresh = (
  trace_of s c degree g h old fresh,
  λ i. revealed s c degree g h old fresh i (g (gfp 0)),
  party-Runs s c degree g h old fresh,
  delivered s c degree g h old fresh,
  λ i hi. refl,
)

-- ===== src/Share/Reveal/Secret.antt =====
-- The joint runs of `Share::reveal`: the secret that all the parties compute.
use linux_copy.Common.{
  ℕ, zero, suc, ◌+◌, ◌<◌, ◌≡◌, ap, ap₂, ◌∙◌, sym, arith, List, ◌++◌, length, get_or,
}
use linux_copy.Gfp.{GfpScalar, gfp}
use linux_copy.Stream.{OctetStream, pack, unpack}
use linux_copy.Stream.Scalars.{unpack-pack}
use linux_copy.Network.{◌>>=◌}
use linux_copy.Network.Run.{Event, Runs, sent_to, received_from, Delivered}
use linux_copy.Network.Inversion.{run_as, each, sent_to-each, sent_to-append, received_from-append}
use linux_copy.ShareBase.{ShareBase}
use linux_copy.Share.{Share, reveal}
use linux_copy.Share.Collect.{receipts, sent_to-receipts, received_from-receipts}
use linux_copy.Share.Reveal.{
  party, IsRevealed, share_of, program, revealed, finish, king_inversion, other_inversion,
  compute-ret, finish_inversion,
}

module _ (s : OctetStream) (c : ShareBase) (degree : ℕ) (g : GfpScalar → GfpScalar)
    (h : IsRevealed c degree g) (old : ℕ → GfpScalar) (fresh : ℕ → ℕ → GfpScalar) where
  open s use {Octets, empty}

  module _ (traces : ℕ → List (Event Octets)) (results : ℕ → Share)
      (runs : (i : ℕ)
        → i < c.n_players
        → Runs Octets Share (program s c degree g h old fresh i) (traces i) (results i))
      (delivered : Delivered c.n_players traces) where
    shares_received :
        (os : List Octets) (rest : List (Event Octets))
        → traces 0 ≡ receipts 1 os ++ rest
        → length os ≡ degree
        → (k : ℕ) → k < degree
        → get_or os k empty ≡ pack s (g (gfp (suc k + 1)))
    shares_received os rest e len k hk =
        let n = h.enough_players in
        let (o, _, _, member) =
          other_inversion s c degree g h old fresh k (omega arith) (runs (suc k) (omega arith)) in
        ap (λ l. get_or l 0 empty)
          (sym (
              ap (received_from (suc k)) e
              ∙ received_from-append (suc k) (receipts 1 os) rest
              ∙ ap (λ l. l ++ received_from (suc k) rest)
                  (ap (λ i. received_from i (receipts 1 os)) {x = suc k} {y = 1 + k} (omega arith)
                    ∙ received_from-receipts k 1 os empty (omega (arith, len))))
            ∙ delivered 0 (suc k) (omega arith) (omega arith)
            ∙ member (omega arith))

    king_done :
        (os : List Octets) × (traces 0 ≡ receipts 1 os ++ each 0 0 c.n_players (pack s (g (gfp 0))))
        × (results 0 ≡ revealed s c degree g h old fresh 0 (g (gfp 0)))
    king_done =
        let (os, rest, e, len, after) =
          king_inversion s c degree g h old fresh (runs 0 (omega (arith, h.enough_players))) in
        let computed =
          compute-ret s c degree g h old fresh os len (shares_received os rest e len) in
        let (e', e₂) =
          finish_inversion s c degree g h old fresh (g (gfp 0))
            (run_as (ap (λ p. p >>= finish s c degree g h old fresh) computed) after) in
        (os, e ∙ ap (λ t. receipts 1 os ++ t) e', e₂)

    secrets_received :
        (i : ℕ)
        → i < c.n_players
        → results i ≡ record (share_of degree g old i) { secret = g (gfp 0) }
    unfolding revealed
    secrets_received zero hi = king_done.2
    secrets_received (suc j) hi =
        let (os, e, _) = king_done in
        let (o, e', received, _) =
          other_inversion s c degree g h old fresh j hi (runs (suc j) hi) in
        let same =
          ap (λ l. get_or l 0 empty)
            (sym received
              ∙ delivered (suc j) 0 hi (omega arith)
              ∙ ap (sent_to (suc j)) e
              ∙ sent_to-append (suc j) (receipts 1 os) _
              ∙ ap₂ ◌++◌ (sent_to-receipts (suc j) 1 os) (
                  sent_to-each 0 0 c.n_players (suc j) (pack s (g (gfp 0))) (omega arith)
                    (omega arith) (omega arith))) in
        e'
        ∙ ap (λ x. record (share_of degree g old (suc j)) { secret = x })
            (ap (unpack s) same ∙ unpack-pack s (g (gfp 0)))

-- Whenever all the parties run `reveal` to its end over channels that deliver what was sent, on the
-- values of a polynomial of the sharing's degree (the threshold or twice the threshold) at their
-- points, with party 0 as Pking, every party has the polynomial's value at 0 as the secret, and its
-- degree and share are as before.
pub reveal_lem :
    (s : OctetStream) (c : ShareBase) (degree : ℕ) (g : GfpScalar → GfpScalar)
    → IsRevealed c degree g
    → (old : ℕ → GfpScalar) (fresh : ℕ → ℕ → GfpScalar) (traces : ℕ → List (Event s.Octets))
      (results : ℕ → Share)
    → ((i : ℕ)
        → i < c.n_players
        → Runs s.Octets Share
            (reveal s (party c i) (share_of degree g old i) (fresh i))
            (traces i)
            (results i))
    → Delivered c.n_players traces
    → (i : ℕ) → i < c.n_players
    → results i ≡ record (share_of degree g old i) { secret = g (gfp 0) }
unfolding program
reveal_lem s c degree g h old fresh traces results runs delivered =
    secrets_received s c degree g h old fresh traces results runs delivered

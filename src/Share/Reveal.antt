-- ===== src/Share/Reveal.antt =====
-- `Share::reveal`: what all the parties together compute.
pub mod Secret
pub mod Exists
use native.Mathlib.Nat.{mod-eq_of_lt}
use mathlib.Core.List.{append-nil}
use linux_copy.Common.{
  ℕ, zero, suc, ◌+◌, ◌*◌, ◌<◌, ◌≤◌, ◌≡◌, ◌≢◌, refl, ap, ap₂, ◌∙◌, sym, subst, arith, ◌==◌, ==_ne,
  ==_iff, ==_refl, if◌then◌else◌, Bool, true, false, List, [], ◌∷◌, ◌++◌, length, tabulate, get_or,
  Bool-cases, leb, leb→le, le→leb, lt→leb_false, fun_ext, inl, inr, dec_le, ◌⊎◌, not, ◌&&◌,
  get_or-tabulate,
}
use linux_copy.Gfp.{GfpScalar, gfp}
use linux_copy.Poly.Eval.{IsPoly}
use linux_copy.Stream.{OctetStream, pack, unpack}
use linux_copy.Stream.Scalars.{unpack-pack}
use linux_copy.Network.{Proc, ret, send, receive, abort, ◌>>=◌, send_each}
use linux_copy.Network.Run.{
  Event, out, inc, Runs, done, sends, receives, sent_to, received_from, Delivered,
}
use linux_copy.Network.Inversion.{
  ret_inversion, send_inversion, receive_inversion, bind_inversion, bind_assoc, Runs-bind, run_as,
  each, each-Runs, each_inversion, sent_to-each, received_from-each, sent_to-append,
  received_from-append,
}
use linux_copy.ShareBase.{ShareBase, is_in_reconstruction_set}
use linux_copy.ShareBase.Reconstruct.{IsValid}
use linux_copy.Share.{
  Share, collect, calculate_secret, reconstruct_secret, reveal_to_party, reveal_to_pking,
  send_share, share_secret, reveal,
}
use linux_copy.Share.Collect.{
  receipts, sent_to-receipts, received_from-receipts, received_from-receipts_before,
  received_from-receipts_after, collect_inversion, collect-Runs, collect_own, calculate_secret-ret,
}

-- One party among those that run the protocol. Pking is party 0, its default.
abbrev pub party : ShareBase → ℕ → ShareBase
party c i = record c { my_num = i; pking = 0 }

-- What the protocol relies on: the distance of party `i` from Pking is `i`, there are parties
-- enough for the degree, which is one that the methods support, and a polynomial of the degree.
pub record IsRevealed (c : ShareBase) (degree : ℕ) (g : GfpScalar → GfpScalar) : Type 0 where
  pub valid : IsValid c
  pub relative : (i : ℕ) → i < c.n_players → c.get_relative i 0 ≡ i
  pub enough_players : degree < c.n_players
  pub supported : (degree ≡ c.threshold) ⊎ (degree ≡ c.threshold * 2)
  pub polynomial : IsPoly (suc degree) g

-- Party `i`'s part of the sharing: the value of the polynomial at its point.
abbrev pub share_of : ℕ → (GfpScalar → GfpScalar) → (ℕ → GfpScalar) → ℕ → Share
share_of degree g old i = record { secret = old i; degree = degree; share = g (gfp (i + 1)) }

module _ (s : OctetStream) (c : ShareBase) (degree : ℕ) (g : GfpScalar → GfpScalar)
    (h : IsRevealed c degree g) (old : ℕ → GfpScalar) (fresh : ℕ → ℕ → GfpScalar) where
  open s use {Octets, empty}

  unfoldable pub program : ℕ → Proc Octets Share
  program i = reveal s (party c i) (share_of degree g old i) (fresh i)

  unfoldable pub revealed : ℕ → GfpScalar → Share
  revealed i x = record (share_of degree g old i) { secret = x }

  -- What Pking does when it has received the shares.
  unfoldable pub compute : List Octets → Proc Octets GfpScalar
  compute os = calculate_secret s (party c 0) degree (g (gfp (0 + 1))) (fresh 0) os

  unfoldable pub finish : GfpScalar → Proc Octets Share
  finish x = send_each 0 0 c.n_players (pack s x) >>= λ _. ret (revealed 0 x)

  pub king_program :
      program 0 ≡ (collect s (party c 0) degree 1 >>= λ os. compute (empty ∷ os) >>= finish)
  unfolding program reveal reveal_to_pking reveal_to_party reconstruct_secret compute finish
      revealed share_secret
  king_program =
      bind_assoc (collect s (party c 0) (degree + 1) 0) _ _
      ∙ ap (λ k. collect s (party c 0) (degree + 1) 0 >>= k)
          (fun_ext (λ os. bind_assoc (compute os) _ _))
      ∙ ap (λ p. p >>= λ os. compute os >>= finish) (collect_own s (party c 0) degree refl)
      ∙ bind_assoc (collect s (party c 0) degree 1) _ _

  -- The program of another party, in the reconstruction set or not.
  pub member_program :
      (j : ℕ)
      → suc j ≤ degree
      → program (suc j)
        ≡ send 0
            (pack s (g (gfp (suc j + 1))))
            (receive 0 (λ o. ret (revealed (suc j) (unpack s o))))
  unfolding program reveal reveal_to_pking reveal_to_party send_share share_secret
      is_in_reconstruction_set revealed
  member_program j hd = rw (
    h.relative (suc j) (omega (arith, h.enough_players)),
    le→leb (suc j) degree hd,
    share_secret,
    ==_ne (suc j) 0 (omega arith),
  )

  pub other_program :
      (j : ℕ)
      → degree < suc j
      → suc j < c.n_players
      → program (suc j) ≡ receive 0 (λ o. ret (revealed (suc j) (unpack s o)))
  unfolding program reveal reveal_to_pking reveal_to_party send_share share_secret
      is_in_reconstruction_set revealed
  other_program j hd hn = rw (
    h.relative (suc j) hn,
    lt→leb_false degree (suc j) hd,
    share_secret,
    ==_ne (suc j) 0 (omega arith),
  )

  pub king_inversion :
      {trace : List (Event Octets)} {a : Share}
      → Runs Octets Share (program 0) trace a
      → (os : List Octets) × (rest : List (Event Octets)) × (trace ≡ receipts 1 os ++ rest)
        × (length os ≡ degree)
        × Runs Octets Share (compute (empty ∷ os) >>= finish) rest a
  king_inversion r =
      let (first, rest, os, e, received, after) =
        bind_inversion (collect s (party c 0) degree 1) (run_as king_program r) in
      let (e', len) = collect_inversion s (party c 0) degree 1 (omega arith) received in
      (os, rest, e ∙ ap (λ t. t ++ rest) e', len, after)

  -- The other parties receive one message from Pking, and the members of the reconstruction set
  -- send it their shares before.
  pub other_inversion :
      (j : ℕ) {trace : List (Event Octets)} {a : Share}
      → suc j < c.n_players
      → Runs Octets Share (program (suc j)) trace a
      → (o : Octets) × (a ≡ revealed (suc j) (unpack s o))
        × (received_from 0 trace ≡ o ∷ [])
        × (suc j ≤ degree → sent_to 0 trace ≡ pack s (g (gfp (suc j + 1))) ∷ [])
  other_inversion j {trace} {a} hj r = elim (dec_le (suc j) degree) [
    | yes hd ↦
        let (rest, e, r₁) = send_inversion (run_as (member_program j hd) r) in
        let (o, rest', e', r₂) = receive_inversion r₁ in
        let (e₂, e₃) = ret_inversion r₂ in
        let whole =
          e ∙ ap (◌∷◌ (out 0 (pack s (g (gfp (suc j + 1)))))) (e' ∙ ap (◌∷◌ (inc 0 o)) e₂) in
        (o, sym e₃, ap (received_from 0) whole, λ _. ap (sent_to 0) whole)
    | no far ↦
        let (o, rest', e', r₂) = receive_inversion (run_as (other_program j (omega arith) hj) r) in
        let (e₂, e₃) = ret_inversion r₂ in
        let whole = e' ∙ ap (◌∷◌ (inc 0 o)) e₂ in
        (o, sym e₃, ap (received_from 0) whole, λ hd. absurd (far hd))
  ]

  -- With the shares of the members, Pking computes the secret.
  pub compute-ret :
      (os : List Octets)
      → length os ≡ degree
      → ((k : ℕ) → k < degree → get_or os k empty ≡ pack s (g (gfp (suc k + 1))))
      → compute (empty ∷ os) ≡ ret (g (gfp 0))
  unfolding compute
  compute-ret os len e =
      calculate_secret-ret s (party c 0) refl (h.relative 0 (omega (arith, h.enough_players)))
        degree (fresh 0) os g
        (record {
          modulo = h.valid.modulo;
          some_player = h.valid.some_player;
          few_players = h.valid.few_players;
        })
        refl h.enough_players h.supported h.polynomial len e

  pub finish_inversion :
      (x : GfpScalar) {trace : List (Event Octets)} {a : Share}
      → Runs Octets Share (finish x) trace a
      → (trace ≡ each 0 0 c.n_players (pack s x)) × (a ≡ revealed 0 x)
  unfolding finish
  finish_inversion x r =
      let (first, rest, u, e, sent, after) =
        bind_inversion (send_each 0 0 c.n_players (pack s x)) r in
      let (e', e₂) = ret_inversion after in
      (e ∙ ap₂ ◌++◌ (each_inversion 0 0 c.n_players (pack s x) sent) e' ∙ append-nil _, sym e₂)

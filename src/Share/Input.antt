-- ===== src/Share/Input.antt =====
-- The joint runs of `Share::input_from_party`: the shares that the parties get.
pub mod Exists
use mathlib.Core.List.{append-nil}
use linux_copy.Common.{
  ℕ, zero, suc, ◌+◌, ◌*◌, ◌<◌, ◌≤◌, ◌≡◌, ◌≢◌, refl, ap, ap₂, ◌∙◌, sym, subst, arith, ◌==◌, ==_ne,
  ==_iff, ==_refl, if◌then◌else◌, List, [], ◌∷◌, ◌++◌, length, tabulate, get_or, get_or-tabulate,
  length-tabulate, replicate, length-replicate, take, drop, some, ◌⊎◌, ℕ_discrete,
}
use linux_copy.Gfp.{GfpScalar, gfp}
use linux_copy.Poly.Eval.{eval}
use linux_copy.Stream.{OctetStream, pack, unpack}
use linux_copy.Stream.Scalars.{unpack-pack}
use linux_copy.Matrix.Pack.{pack_row, pack_row_loop}
use linux_copy.Network.{Proc, ret, receive, ◌>>=◌, send_from}
use linux_copy.Network.Run.{
  Event, out, inc, Runs, done, sends, receives, sent_to, received_from, Delivered,
}
use linux_copy.Network.Inversion.{
  ret_inversion, receive_inversion, bind_inversion, Runs-bind, run_as,
}
use linux_copy.Network.Distribute.{
  dispatch, dispatch-Runs, dispatch_inversion, received_from-dispatch, sent_to-dispatch,
  sent_to-dispatch_own,
}
use linux_copy.ShareBase.{ShareBase}
use linux_copy.ShareBase.Vandermonde.{coefficients, get_vandermonde-eval}
use linux_copy.Share.{
  Share, column, sharing_of, calculate_sharing, selected_degree, distribute_sharing, receive_share,
  input_from_party,
}
use linux_copy.Share.Collect.{selected}
use linux_copy.Share.Reveal.{party}

module _ (s : OctetStream) where
  open s use {Octets, empty}

  row_streams :
      (n : ℕ) (f : ℕ → GfpScalar)
      → pack_row_loop s 1 (tabulate n f) (replicate n empty) ≡ tabulate n (λ i. pack s (f i))
  unfolding pack_row_loop pack
  row_streams zero f = refl
  row_streams (suc n) f = ap₂ ◌∷◌ refl (row_streams n (λ i. f (suc i)))

  module _ (c : ShareBase) (d degree : ℕ) (secrets : ℕ → GfpScalar) (coeffs : ℕ → ℕ → GfpScalar)
      (old : ℕ → GfpScalar) (supported : (degree ≡ c.threshold) ⊎ (degree ≡ c.threshold * 2)) where
    abbrev pub input_state : ℕ → Share
    input_state i = record { secret = secrets i; degree = degree; share = old i }

    -- The share of party `i`, from the dealer's secret and coefficients.
    abbrev pub dealt : ℕ → GfpScalar
    dealt i = sharing_of (secrets d) degree (coeffs d) i

    unfoldable pub streams : List Octets
    streams = tabulate c.n_players (λ i. pack s (dealt i))

    calculated :
        calculate_sharing s (party c d) (secrets d) degree (coeffs d) (replicate c.n_players empty)
        ≡ some (dealt d, streams)
    unfolding calculate_sharing pack_row streams
    calculated = rw (
      selected s (party c d) degree supported,
      ==_refl degree,
      (==_iff c.n_players (length (replicate c.n_players empty))).1
          (sym (length-replicate c.n_players empty)),
      row_streams c.n_players (sharing_of (secrets d) degree (coeffs d)),
    )

    unfoldable pub program : ℕ → Proc Octets Share
    program i = input_from_party s (party c i) (input_state i) d (coeffs i)

    unfoldable pub given : ℕ → GfpScalar → Share
    given i x = record (input_state i) { share = x }

    pub dealer_program : program d ≡ (send_from d 0 streams >>= λ _. ret (given d (dealt d)))
    unfolding program input_from_party distribute_sharing given
    dealer_program = rw (==_refl d, calculated)

    pub receiver_program : (i : ℕ) → i ≢ d → program i ≡ receive d (λ o. ret (given i (unpack s o)))
    unfolding program input_from_party receive_share given
    receiver_program i ne = rw (==_ne d i (omega arith))

    dealer_inversion :
        {trace : List (Event Octets)} {a : Share}
        → Runs Octets Share (program d) trace a
        → (trace ≡ dispatch d 0 streams) × (a ≡ given d (dealt d))
    dealer_inversion r =
        let (first, second, u, e, sent, after) =
          bind_inversion (send_from d 0 streams) (run_as dealer_program r) in
        let (e', e₂) = ret_inversion after in
        (e ∙ ap₂ ◌++◌ (dispatch_inversion d 0 streams sent) e' ∙ append-nil _, sym e₂)

    receiver_inversion :
        (i : ℕ) {trace : List (Event Octets)} {a : Share}
        → i ≢ d
        → Runs Octets Share (program i) trace a
        → (o : Octets) × (received_from d trace ≡ o ∷ []) × (a ≡ given i (unpack s o))
    receiver_inversion i ne r =
        let (o, rest, e, r') = receive_inversion (run_as (receiver_program i ne) r) in
        let (e', e₂) = ret_inversion r' in
        (o, ap (received_from d) (e ∙ ap (◌∷◌ (inc d o)) e') ∙ rw (==_refl d) refl, sym e₂)

    pub stream_sent :
        (i : ℕ) → i < c.n_players → i ≢ d → sent_to i (dispatch d 0 streams) ≡ pack s (dealt i) ∷ []
    unfolding streams
    stream_sent i hi ne =
        ap (λ n. sent_to n (dispatch d 0 streams)) {x = i} {y = 0 + i} (omega arith)
        ∙ sent_to-dispatch d 0 i streams empty
            (omega (arith, length-tabulate c.n_players (λ i. pack s (dealt i)))) (omega arith)
        ∙ ap (λ o. o ∷ []) (get_or-tabulate c.n_players (λ i. pack s (dealt i)) i empty hi)

    all_given :
        (traces : ℕ → List (Event Octets)) (results : ℕ → Share)
        → ((i : ℕ) → i < c.n_players → Runs Octets Share (program i) (traces i) (results i))
        → Delivered c.n_players traces
        → d < c.n_players
        → (i : ℕ) → i < c.n_players
        → results i ≡ given i (dealt i)
    unfolding given
    all_given traces results runs delivered hd i hi = elim (ℕ_discrete i d) [
      | yes e ↦ subst (λ n. results n ≡ given n (dealt n)) (sym e) (dealer_inversion (runs d hd)).1
      | no ne ↦
          let (o, received, e) = receiver_inversion i ne (runs i hi) in
          let same =
            ap (λ l. get_or l 0 empty)
              (sym received
                ∙ delivered i d hi hd
                ∙ ap (sent_to i) (dealer_inversion (runs d hd)).0
                ∙ stream_sent i hi ne) in
          e ∙ ap (given i) (ap (unpack s) same ∙ unpack-pack s (dealt i))
    ]

-- When all the parties run `input_from_party` for the same dealer to its end over channels that
-- deliver what was sent, for one of the two degrees in use, the share of each party is the value at
-- its point of the polynomial that has the dealer's secret as its constant term and the dealer's
-- random coefficients as the others; secret and degree are as before.
pub input_from_party_lem :
    (s : OctetStream) (c : ShareBase) (d degree : ℕ) (secrets : ℕ → GfpScalar)
    (coeffs : ℕ → ℕ → GfpScalar) (old : ℕ → GfpScalar)
    → (degree ≡ c.threshold) ⊎ (degree ≡ c.threshold * 2)
    → (traces : ℕ → List (Event s.Octets)) (results : ℕ → Share)
    → ((i : ℕ)
        → i < c.n_players
        → Runs s.Octets Share
            (input_from_party s
              (party c i)
              (record { secret = secrets i; degree = degree; share = old i })
              d
              (coeffs i))
            (traces i)
            (results i))
    → Delivered c.n_players traces
    → d < c.n_players
    → (i : ℕ) → i < c.n_players
    → results i ≡ record {
      secret = secrets i;
      degree = degree;
      share = eval (suc degree) (coefficients (secrets d) (coeffs d)) (gfp (i + 1));
    }
unfolding program given sharing_of
input_from_party_lem s c d degree secrets coeffs old supported traces results runs delivered hd i
      hi =
    all_given s c d degree secrets coeffs old supported traces results runs delivered hd i hi
    ∙ ap (λ x. given s c d degree secrets coeffs old supported i x)
        (get_vandermonde-eval degree (secrets d) (coeffs d) i)

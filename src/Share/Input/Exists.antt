-- ===== src/Share/Input/Exists.antt =====
-- The joint runs of `Share::input_from_party`: that there is one.
use mathlib.Core.List.{append-nil}
use linux_copy.Common.{
  ℕ, ◌*◌, ◌<◌, ◌≡◌, ◌≢◌, refl, ap, ◌∙◌, sym, subst, arith, ◌==◌, ==_ne, ==_refl, if◌then◌else◌,
  List, [], ◌∷◌, ◌⊎◌, ℕ_discrete,
}
use linux_copy.Gfp.{GfpScalar}
use linux_copy.Stream.{OctetStream, pack, unpack}
use linux_copy.Stream.Scalars.{unpack-pack}
use linux_copy.Network.{ret, receive, ◌>>=◌, send_from}
use linux_copy.Network.Run.{Event, inc, Runs, done, receives, sent_to, received_from, Delivered}
use linux_copy.Network.Inversion.{Runs-bind, run_as}
use linux_copy.Network.Distribute.{
  dispatch, dispatch-Runs, received_from-dispatch, sent_to-dispatch_own,
}
use linux_copy.ShareBase.{ShareBase}
use linux_copy.Share.{Share, input_from_party}
use linux_copy.Share.Reveal.{party}
use linux_copy.Share.Input.{
  dealt, streams, program, given, dealer_program, receiver_program, stream_sent,
}

module _ (s : OctetStream) (c : ShareBase) (d degree : ℕ) (secrets : ℕ → GfpScalar)
    (coeffs : ℕ → ℕ → GfpScalar) (old : ℕ → GfpScalar)
    (supported : (degree ≡ c.threshold) ⊎ (degree ≡ c.threshold * 2)) where
  open s use {Octets}

  packed : ℕ → Octets
  packed i = pack s (dealt s c d degree secrets coeffs old supported i)

  trace_of : ℕ → List (Event Octets)
  trace_of i =
      if i == d
      then dispatch d 0 (streams s c d degree secrets coeffs old supported)
      else inc d (packed i) ∷ []

  dealer_trace : trace_of d ≡ dispatch d 0 (streams s c d degree secrets coeffs old supported)
  unfolding trace_of
  dealer_trace = rw (==_refl d)

  receiver_trace : (i : ℕ) → i ≢ d → trace_of i ≡ inc d (packed i) ∷ []
  unfolding trace_of
  receiver_trace i ne = rw (==_ne i d ne)

  result_of : ℕ → Share
  result_of i =
      given s c d degree secrets coeffs old supported i
        (dealt s c d degree secrets coeffs old supported i)

  party-Runs :
      (i : ℕ)
      → Runs Octets Share
          (program s c d degree secrets coeffs old supported i)
          (trace_of i)
          (result_of i)
  unfolding result_of packed
  party-Runs i = elim (ℕ_discrete i d) [
    | yes e ↦
        subst
          (λ n.
            Runs Octets Share (program s c d degree secrets coeffs old supported n) (trace_of n)
              (result_of n))
          (sym e)
          (run_as (sym (dealer_program s c d degree secrets coeffs old supported)) (
            subst
              (λ t.
                Runs Octets Share
                  (send_from d 0 (streams s c d degree secrets coeffs old supported) >>= λ _.
                    ret (result_of d))
                  t (result_of d))
              (append-nil _ ∙ sym dealer_trace)
              (Runs-bind (λ _. ret (result_of d))
                (dispatch-Runs d 0 (streams s c d degree secrets coeffs old supported)) done)))
    | no ne ↦ run_as (sym (receiver_program s c d degree secrets coeffs old supported i ne)) (
        subst
          (λ t.
            Runs Octets Share
              (receive d
                (λ o. ret (given s c d degree secrets coeffs old supported i (unpack s o))))
              t (result_of i))
          (sym (receiver_trace i ne))
          (subst
            (λ x.
              Runs Octets Share
                (receive d
                  (λ o. ret (given s c d degree secrets coeffs old supported i (unpack s o))))
                (inc d (packed i) ∷ []) (given s c d degree secrets coeffs old supported i x))
            (unpack-pack s (dealt s c d degree secrets coeffs old supported i)) (receives done)))
  ]

  -- A party receives only from the dealer, and only the dealer sends.
  delivered : Delivered c.n_players trace_of
  unfolding packed
  delivered i j hi hj = elim (ℕ_discrete j d) [
    | yes e ↦ elim (ℕ_discrete i d) [
      | yes e' ↦
          subst (λ n. received_from j (trace_of n) ≡ sent_to n (trace_of j)) (sym e')
            (ap (received_from j) dealer_trace
              ∙ received_from-dispatch d 0 j (streams s c d degree secrets coeffs old supported)
              ∙ sym (
                  ap (λ n. sent_to d (trace_of n)) e
                  ∙ ap (sent_to d) dealer_trace
                  ∙ sent_to-dispatch_own d 0 (streams s c d degree secrets coeffs old supported)))
      | no ne ↦
          subst (λ n. received_from n (trace_of i) ≡ sent_to i (trace_of n)) (sym e)
            (ap (received_from d) (receiver_trace i ne)
              ∙ rw (==_refl d) (
                  sym (
                    ap (sent_to i) dealer_trace
                    ∙ stream_sent s c d degree secrets coeffs old supported i hi ne)))
    ]
    | no ne ↦ nothing_from i j ne ∙ sym (ap (sent_to i) (receiver_trace j ne))
  ]
    where
      nothing_from : (i j : ℕ) → j ≢ d → received_from j (trace_of i) ≡ []
      nothing_from i j ne = elim (ℕ_discrete i d) [
        | yes e ↦
            ap (λ n. received_from j (trace_of n)) e
            ∙ ap (received_from j) dealer_trace
            ∙ received_from-dispatch d 0 j (streams s c d degree secrets coeffs old supported)
        | no ne' ↦ ap (received_from j) (receiver_trace i ne') ∙ rw (==_ne d j (omega arith)) refl
      ]

-- `input_from_party` does end: whatever the secrets and coefficients, for one of the two degrees in
-- use, there are runs of all the parties that deliver to each what was sent to it.
pub input_from_party-Runs :
    (s : OctetStream) (c : ShareBase) (d degree : ℕ) (secrets : ℕ → GfpScalar)
    (coeffs : ℕ → ℕ → GfpScalar) (old : ℕ → GfpScalar)
    → (degree ≡ c.threshold) ⊎ (degree ≡ c.threshold * 2)
    → (traces : ℕ → List (Event s.Octets)) × (results : ℕ → Share) × ((i : ℕ)
        → i < c.n_players
        → Runs s.Octets Share
            (input_from_party s
              (party c i)
              (record { secret = secrets i; degree = degree; share = old i })
              d
              (coeffs i))
            (traces i)
            (results i))
      × Delivered c.n_players traces
unfolding program
input_from_party-Runs s c d degree secrets coeffs old supported = (
  trace_of s c d degree secrets coeffs old supported,
  result_of s c d degree secrets coeffs old supported,
  λ i hi. party-Runs s c d degree secrets coeffs old supported i,
  delivered s c d degree secrets coeffs old supported,
)

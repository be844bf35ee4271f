-- ===== src/Share/Reduce/Secret.antt =====
-- The joint runs of `Share::reduce_degree`.
use mathlib.Core.List.{append-nil}
use linux_copy.Common.{
  ℕ, ◌+◌, ◌*◌, ◌/◌, ◌^◌, ◌<◌, ◌≡◌, ap, ◌∙◌, sym, subst, arith, ==_refl, List, ◌∷◌, ◌++◌, dec_lt,
}
use linux_copy.Gfp.{GfpScalar, gfp, ◌⊕◌, ◌⊖◌}
use linux_copy.Stream.{OctetStream}
use linux_copy.Network.{Proc, ret, ◌>>=◌}
use linux_copy.Network.Run.{Event, Runs, Delivered}
use linux_copy.Network.Inversion.{ret_inversion, bind_inversion, run_as}
use linux_copy.ShareBase.{ShareBase}
use linux_copy.RandomShare.{get_random_pair}
use linux_copy.Share.{Share, reveal}
use linux_copy.Share.Reveal.{party, IsRevealed, share_of}
use linux_copy.Share.Reveal.Secret.{reveal_lem}
use linux_copy.Share.Reduce.{reduce_degree, double_degree}

module _ (s : OctetStream) (c : ShareBase) (x r big_r : GfpScalar → GfpScalar)
    (h : IsRevealed c (c.threshold * 2) (λ p. x p ⊕ big_r p)) (old : ℕ → GfpScalar)
    (fresh : ℕ → ℕ → GfpScalar) (rest : ℕ → List GfpScalar) where
  open s use {Octets}

  -- Party `i`'s share of the product, and its queue with the pair at the front.
  abbrev pub product_share : ℕ → Share
  product_share i = record { secret = old i; degree = c.threshold; share = x (gfp (i + 1)) }

  abbrev pub pair_queue : ℕ → List GfpScalar
  pair_queue i = r (gfp (i + 1)) ∷ big_r (gfp (i + 1)) ∷ rest i

  -- What is left to do after the reveal.
  unmask : ℕ → Share → Proc Octets (Share × List GfpScalar)
  unmask i self =
      ret (
        record self { degree = self.degree / 2 ^ 1; share = self.secret ⊖ r (gfp (i + 1)) },
        rest i,
      )

  reduce_degree-reveal :
      (i : ℕ)
      → reduce_degree s (party c i) (product_share i) (pair_queue i) (fresh i) ≡ (
          reveal s (party c i) (share_of (c.threshold * 2) (λ p. x p ⊕ big_r p) old i) (fresh i)
          >>= unmask i)
  unfolding reduce_degree double_degree unmask get_random_pair reveal
  reduce_degree-reveal i = rw (==_refl (c.threshold * 2))

  after_reveal :
      (i : ℕ) {trace : List (Event Octets)} {a : Share × List GfpScalar}
      → Runs Octets
          (Share × List GfpScalar)
          (reduce_degree s (party c i) (product_share i) (pair_queue i) (fresh i))
          trace
          a
      → (self : Share) × Runs Octets Share
          (reveal s (party c i) (share_of (c.threshold * 2) (λ p. x p ⊕ big_r p) old i) (fresh i))
          trace
          self
        × (a ≡ (
          record self { degree = self.degree / 2 ^ 1; share = self.secret ⊖ r (gfp (i + 1)) },
          rest i,
        ))
  unfolding unmask
  after_reveal i {trace} r' =
      let (first, second, self, e, revealed, after) =
        bind_inversion
          (reveal s (party c i) (share_of (c.threshold * 2) (λ p. x p ⊕ big_r p) old i) (fresh i))
          (run_as (reduce_degree-reveal i) r') in
      let (e', e₂) = ret_inversion after in
      (
        self,
        subst
            (λ t.
              Runs Octets Share
                (reveal s (party c i) (share_of (c.threshold * 2) (λ p. x p ⊕ big_r p) old i)
                  (fresh i))
                t self)
            (sym (e ∙ ap (λ t. first ++ t) e' ∙ append-nil first)) revealed,
        sym e₂,
      )

  -- What each party ends with.
  abbrev pub reduced : ℕ → Share × List GfpScalar
  reduced i = (
    record {
      secret = x (gfp 0) ⊕ big_r (gfp 0);
      degree = c.threshold;
      share = (x (gfp 0) ⊕ big_r (gfp 0)) ⊖ r (gfp (i + 1));
    },
    rest i,
  )

  half : (c.threshold * 2) / 2 ^ 1 ≡ c.threshold
  half = omega arith

  module _ (traces : ℕ → List (Event Octets)) (results : ℕ → Share × List GfpScalar)
      (runs : (i : ℕ)
        → i < c.n_players
        → Runs Octets
            (Share × List GfpScalar)
            (reduce_degree s (party c i) (product_share i) (pair_queue i) (fresh i))
            (traces i)
            (results i))
      (delivered : Delivered c.n_players traces) where
    -- What the party holds after the reveal.
    self_at : (i : ℕ) → Dec (i < c.n_players) → Share
    self_at i (yes hi) = (after_reveal i (runs i hi)).0
    self_at i (no far) = product_share i

    self_at-Runs :
        (i : ℕ) (d : Dec (i < c.n_players))
        → i < c.n_players
        → Runs Octets Share
            (reveal s (party c i) (share_of (c.threshold * 2) (λ p. x p ⊕ big_r p) old i) (fresh i))
            (traces i)
            (self_at i d)
    unfolding self_at
    self_at-Runs i (yes hi) h' = (after_reveal i (runs i hi)).1
    self_at-Runs i (no far) h' = absurd (far h')

    results-self_at :
        (i : ℕ) (d : Dec (i < c.n_players))
        → i < c.n_players
        → results i ≡ (
          record (self_at i d) {
            degree = (self_at i d).degree / 2 ^ 1;
            share = (self_at i d).secret ⊖ r (gfp (i + 1));
          },
          rest i,
        )
    unfolding self_at
    results-self_at i (yes hi) h' = (after_reveal i (runs i hi)).2
    results-self_at i (no far) h' = absurd (far h')

    pub all_reduced : (i : ℕ) → i < c.n_players → results i ≡ reduced i
    all_reduced i hi =
        results-self_at i (dec_lt i c.n_players) hi
        ∙ ap
            (λ (self : Share). (
              record self { degree = self.degree / 2 ^ 1; share = self.secret ⊖ r (gfp (i + 1)) },
              rest i,
            ))
            (reveal_lem s c (c.threshold * 2) (λ p. x p ⊕ big_r p) h old fresh traces
              (λ i. self_at i (dec_lt i c.n_players))
              (λ i hi. self_at-Runs i (dec_lt i c.n_players) hi) delivered i hi)
        ∙ ap
            (λ d. (
              record {
                secret = x (gfp 0) ⊕ big_r (gfp 0);
                degree = d;
                share = (x (gfp 0) ⊕ big_r (gfp 0)) ⊖ r (gfp (i + 1));
              },
              rest i,
            ))
            {x = c.threshold * 2 / 2 ^ 1} half

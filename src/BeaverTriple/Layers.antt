-- ===== src/BeaverTriple/Layers.antt =====
-- The joint runs of `ShareBundle::reduce_degree_1stLayer`, and the second layer.
use linux_copy.Common.{ℕ, suc, ◌+◌, ◌*◌, ◌<◌, ◌≡◌, refl, arith, List, ltb, if◌then◌else◌, inr}
use linux_copy.Gfp.{GfpScalar, gfp, ◌⊕◌, ◌⊗◌, neg}
use linux_copy.Poly.Eval.{IsPoly}
use linux_copy.Stream.{OctetStream}
use linux_copy.Network.{Proc}
use linux_copy.Network.Joint.{Joint}
use linux_copy.ShareBase.{ShareBase}
use linux_copy.Share.Reveal.{party}
use linux_copy.ShareBundle.{ShareBundle}
use linux_copy.ShareBundle.Block.Reveal.{IsSupported}
use linux_copy.ShareBundle.Prg.Deal.{IsDealt}
use linux_copy.ShareBundle.Reveal.Exists.{opened}
use linux_copy.ShareBundle.Reduce.Exists.{product_bundle, pairs, pairs_queue}
use linux_copy.BeaverTriple.{
  BeaverTriple, triple_of_shape, stacked, layered, reduce_degree_first_layer,
}

-- What the parties hold: `n` products x by polynomials of degree 2t once they are masked, `n` shares of
-- y of degree t, and two masks for each entry, shared with degree t and with degree 2t.
pub record IsLayered (t n : ℕ) (x y r big_r : ℕ → GfpScalar → GfpScalar) : Type 0 where
  pub product : (e : ℕ) → e < n → IsPoly (suc (t * 2)) (λ p. x e p ⊕ big_r e p)
  pub factor : (e : ℕ) → e < n → IsPoly (suc t) (y e)
  pub mask : (e : ℕ) → e < n * 2 → IsPoly (suc t) (r e)
  pub big_mask : (e : ℕ) → e < n → IsPoly (suc (t * 2)) (big_r (n + e))
  pub same_mask : (e : ℕ) → e < n * 2 → r e (gfp 0) ≡ big_r e (gfp 0)

module _ (s : OctetStream) (c : ShareBase) (rows cols : ℕ) (x y r big_r : ℕ → GfpScalar → GfpScalar)
    (h : IsDealt c) (old : ℕ → ℕ → GfpScalar) (fresh : ℕ → ℕ → ℕ → GfpScalar)
    (rest : ℕ → List GfpScalar) where
  open s use {Octets}
  open c use {n_players, threshold}

  abbrev n : ℕ
  n = rows * cols

  abbrev total : ℕ
  total = rows * 2 * cols

  -- The pair of masks of an entry; past the matrix there is none.
  abbrev masks : ℕ → GfpScalar → GfpScalar × GfpScalar
  masks e p = if ltb e total then (r e p, big_r e p) else (gfp 0, gfp 0)

  abbrev masked : ℕ → GfpScalar → GfpScalar
  masked e p =
      stacked n (λ k. x k p ⊕ (masks k p).1)
        (λ k. (masks k p).0 ⊗ neg (y k p) ⊕ (masks (n + k) p).1) e

  supported : IsSupported c (threshold * 2)
  supported = record {
    valid = h.base.valid;
    relative = h.base.relative;
    enough_players = omega (arith, h.players);
    supported = inr refl;
  }

  abbrev zeros : ℕ → ℕ → GfpScalar
  zeros i e = gfp 0

  abbrev disclosed : ℕ → ℕ → GfpScalar
  disclosed i = (opened s c (rows * 2) cols (threshold * 2) masked supported zeros fresh i).secrets

  abbrev drawn_pairs : ℕ → List (GfpScalar × GfpScalar)
  drawn_pairs i = pairs total r big_r i

  abbrev x_bundle : ℕ → ShareBundle
  x_bundle i = product_bundle c rows cols x old i

  abbrev y_bundle : ℕ → ShareBundle
  y_bundle i = product_bundle c rows cols y old i

  after_reveal : ℕ → ShareBundle → (ShareBundle × BeaverTriple) × List GfpScalar
  after_reveal i b = (
    layered s (party c i) (x_bundle i) (y_bundle i) (triple_of_shape c rows cols) (drawn_pairs i)
        b.secrets,
    rest i,
  )

  abbrev result : ℕ → (ShareBundle × BeaverTriple) × List GfpScalar
  result i =
      after_reveal i (opened s c (rows * 2) cols (threshold * 2) masked supported zeros fresh i)

  abbrev layer : ℕ → Proc Octets ((ShareBundle × BeaverTriple) × List GfpScalar)
  layer i =
      reduce_degree_first_layer s (party c i) (x_bundle i) (y_bundle i)
        (triple_of_shape c rows cols) (pairs_queue total r big_r rest i) (fresh i)

  module _ (q : IsLayered threshold n x y r big_r) where
    abbrev opened_x : ℕ → GfpScalar
    opened_x e = x e (gfp 0) ⊕ big_r e (gfp 0)

    abbrev opened_product : ℕ → GfpScalar
    opened_product e = r e (gfp 0) ⊗ neg (y e (gfp 0)) ⊕ big_r (n + e) (gfp 0)

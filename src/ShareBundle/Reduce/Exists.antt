-- ===== src/ShareBundle/Reduce/Exists.antt =====
-- The joint runs of `ShareBundle::reduce_degree`.
use linux_copy.Common.{
  ℕ, suc, ◌+◌, ◌-◌, ◌*◌, ◌<◌, ◌≡◌, refl, arith, List, ◌++◌, tabulate, ltb, if◌then◌else◌, inr,
}
use linux_copy.Gfp.{GfpScalar, gfp, ◌⊕◌, ◌⊖◌}
use linux_copy.Poly.Eval.{IsPoly}
use linux_copy.Stream.{OctetStream}
use linux_copy.Network.{Proc, ret}
use linux_copy.Network.Joint.{Joint}
use linux_copy.RandomShare.Queues.{flatten}
use linux_copy.ShareBase.{ShareBase}
use linux_copy.ShareBundle.{ShareBundle}
use linux_copy.ShareBundle.Block.Partition.{start_of}
use linux_copy.ShareBundle.Block.Reveal.{IsSupported, block_revealed}
use linux_copy.ShareBundle.Prg.Deal.{IsDealt, dealt}
use linux_copy.ShareBundle.Prg.Exists.{input_bundle, input_shares}
use linux_copy.ShareBundle.Prg.Values.{block_of}
use linux_copy.ShareBundle.Reduce.{sub_shares, pair_at}

-- Party `i`'s shares of the products, and its queue with the pairs for `n` entries at the front.
abbrev pub product_bundle :
    ShareBase → ℕ → ℕ → (ℕ → GfpScalar → GfpScalar) → (ℕ → ℕ → GfpScalar) → ℕ → ShareBundle
product_bundle c rows cols x old i = record {
  rows = rows;
  cols = cols;
  secrets = old i;
  degree = c.threshold;
  shares = λ e. x e (gfp (i + 1));
}

abbrev pub pairs :
    ℕ → (ℕ → GfpScalar → GfpScalar) → (ℕ → GfpScalar → GfpScalar) → ℕ → List (GfpScalar × GfpScalar)
pairs n r big_r i = tabulate n (λ e. (r e (gfp (i + 1)), big_r e (gfp (i + 1))))

abbrev pub pairs_queue :
    ℕ
    → (ℕ → GfpScalar → GfpScalar)
    → (ℕ → GfpScalar → GfpScalar)
    → (ℕ → List GfpScalar)
    → ℕ
    → List GfpScalar
pairs_queue n r big_r rest i = flatten (pairs n r big_r i) ++ rest i

module _ (s : OctetStream) (c : ShareBase) (rows cols : ℕ) (x r big_r : ℕ → GfpScalar → GfpScalar)
    (h : IsDealt c) (old : ℕ → ℕ → GfpScalar) (fresh : ℕ → ℕ → ℕ → GfpScalar)
    (prngs : ℕ → ℕ → ℕ → GfpScalar) (rest : ℕ → List GfpScalar) where
  open s use {Octets}
  open c use {n_players, threshold}

  -- The polynomials of the masked products; past the matrix there is no mask.
  abbrev masked : ℕ → GfpScalar → GfpScalar
  masked e p = x e p ⊕ (if ltb e (rows * cols) then big_r e p else gfp 0)

  supported : IsSupported c (threshold * 2)
  supported = record {
    valid = h.base.valid;
    relative = h.base.relative;
    enough_players = omega (arith, h.players);
    supported = inr refl;
  }

  abbrev revealed : ℕ → ShareBundle
  revealed i = block_revealed s c rows cols (threshold * 2) masked supported old fresh i

  abbrev disclosed : ℕ → ℕ → GfpScalar
  disclosed i = (revealed i).secrets

  abbrev masked_shares : ℕ → ℕ → GfpScalar
  masked_shares i e = masked e (gfp (i + 1))

  abbrev dealt_bundle : ℕ → ShareBundle
  dealt_bundle i =
      input_bundle s c rows cols h disclosed prngs masked_shares i
        (input_shares s c rows cols h disclosed prngs masked_shares i)

  unmask : ℕ → ShareBundle → Proc Octets (ShareBundle × List GfpScalar)
  unmask i dealt =
      ret (sub_shares (λ e. (pair_at (pairs (rows * cols) r big_r i) e).0) dealt, rest i)

  abbrev reduced : ℕ → ShareBundle × List GfpScalar
  reduced i =
      (sub_shares (λ e. (pair_at (pairs (rows * cols) r big_r i) e).0) (dealt_bundle i), rest i)

  module _ (e : ℕ) (he : e < rows * cols) where
    owner : ℕ
    owner = (block_of n_players rows cols e h.base.valid.some_player he).0

    place : ℕ
    place = e - start_of n_players rows owner * cols

    -- The polynomial of the new sharing.
    result : GfpScalar → GfpScalar
    result p = dealt s c rows cols h disclosed prngs owner place p ⊖ r e p

-- What the parties hold: the masked products are of degree 2t, and the mask of each entry is one value
-- shared with degree t and with degree 2t.
pub record IsMasked (c : ShareBase) (n : ℕ) (x r big_r : ℕ → GfpScalar → GfpScalar) : Type 0 where
  pub product : (e : ℕ) → e < n → IsPoly (suc (c.threshold * 2)) (λ p. x e p ⊕ big_r e p)
  pub mask : (e : ℕ) → e < n → IsPoly (suc c.threshold) (r e)
  pub same_mask : (e : ℕ) → e < n → r e (gfp 0) ≡ big_r e (gfp 0)

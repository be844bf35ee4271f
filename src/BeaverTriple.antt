-- ===== src/BeaverTriple.antt =====
-- Protocols/BeaverTriper.h, class BeaverTriple: shares of `a`, `b` and `c = a b`, with public `u` and
-- `v`, for the inputs `u - a` and `v - b`; and the first layer of a multiplication in two layers of
-- Protocols/ShareBundle.cpp, which makes one. A matrix is read as the function of its row-major
-- index.
pub mod Values
pub mod Affine
pub mod Layers
use linux_copy.Common.{ℕ, ◌+◌, ◌-◌, ◌*◌, ◌==◌, ltb, if◌then◌else◌, List, Option, none, some}
use linux_copy.Gfp.{GfpScalar, gfp, ◌⊕◌, ◌⊖◌, ◌⊗◌, neg}
use linux_copy.Stream.{OctetStream}
use linux_copy.Network.{Proc, ret, ◌>>=◌, ◌>>◌, or_abort, check}
use linux_copy.RandomShare.{get_random_pairs}
use linux_copy.ShareBase.{ShareBase}
use linux_copy.ShareBundle.{ShareBundle, size, bundle_of_shape, double_degree, set_shares}
use linux_copy.ShareBundle.Reveal.{reveal}
use linux_copy.ShareBundle.Reduce.{pair_at}

pub record BeaverTriple : Type 0 where
  pub a : ShareBundle
  pub b : ShareBundle
  pub c : ShareBundle
  pub u : ℕ → GfpScalar
  pub v : ℕ → GfpScalar

unfoldable pub triple_of_shape : ShareBase → ℕ → ℕ → BeaverTriple
unfolding bundle_of_shape
triple_of_shape base rows cols = record {
  a = bundle_of_shape base rows cols;
  b = bundle_of_shape base rows cols;
  c = bundle_of_shape base rows cols;
  u = λ e. gfp 0;
  v = λ e. gfp 0;
}

-- The product of all the shares with a scalar.
unfoldable pub scale_shares : GfpScalar → ShareBundle → ShareBundle
unfolding set_shares
scale_shares k self = set_shares (λ e. k ⊗ self.shares e) self

unfoldable pub x_times : GfpScalar → BeaverTriple → BeaverTriple
unfolding scale_shares
x_times i self = record self {
  u = λ e. i ⊗ self.u e;
  a = scale_shares i self.a;
  c = scale_shares i self.c;
}

unfoldable pub x_plus : GfpScalar → BeaverTriple → BeaverTriple
x_plus j self = record self { u = λ e. self.u e ⊕ j }

unfoldable pub y_times : GfpScalar → BeaverTriple → BeaverTriple
unfolding scale_shares
y_times k self = record self {
  v = λ e. k ⊗ self.v e;
  b = scale_shares k self.b;
  c = scale_shares k self.c;
}

unfoldable pub y_plus : GfpScalar → BeaverTriple → BeaverTriple
y_plus w self = record self { v = λ e. self.v e ⊕ w }

-- The product, without a message.
unfoldable pub mult : ShareBase → BeaverTriple → ShareBundle
unfolding set_shares bundle_of_shape
mult base self =
    set_shares
      (λ e.
        ((self.u e ⊗ self.v e ⊖ self.u e ⊗ self.b.shares e) ⊖ self.v e ⊗ self.a.shares e)
        ⊕ self.c.shares e)
      (bundle_of_shape base self.a.rows self.a.cols)

-- Two matrices of `n` entries, one above the other.
unfoldable pub stacked : ℕ → (ℕ → GfpScalar) → (ℕ → GfpScalar) → ℕ → GfpScalar
stacked n top bottom e = if ltb e n then top e else bottom (e - n)

module _ (s : OctetStream) (base : ShareBase) where
  open s use {Octets}

  -- What `reduce_degree_1stLayer` reveals: `x + r` above `- r y + r'`, the masks of degree 2t.
  unfoldable pub combined : ShareBundle → ShareBundle → List (GfpScalar × GfpScalar) → ShareBundle
  unfolding stacked size set_shares bundle_of_shape double_degree
  combined self y r =
      let n = size self in
      double_degree (
        set_shares
          (stacked n (λ e. self.shares e ⊕ (pair_at r e).1)
            (λ e. (pair_at r e).0 ⊗ neg (y.shares e) ⊕ (pair_at r (n + e)).1))
          (bundle_of_shape base (self.rows * 2) self.cols))

  -- The bundle and the triple that are left when `opened` is what was revealed.
  unfoldable pub layered :
      ShareBundle
      → ShareBundle
      → BeaverTriple
      → List (GfpScalar × GfpScalar)
      → (ℕ → GfpScalar)
      → ShareBundle × BeaverTriple
  unfolding size set_shares
  layered self y triple r opened =
      let n = size self in
      (
        set_shares (λ e. opened e ⊖ (pair_at r e).0) self,
        record {
          a = set_shares (λ e. (pair_at r e).0) triple.a;
          b = set_shares (λ e. neg (y.shares e)) triple.b;
          c = set_shares (λ e. opened (n + e) ⊖ (pair_at r (n + e)).0) triple.c;
          u = opened;
          v = λ e. gfp 0;
        },
      )

  unfoldable pub reduce_degree_first_layer :
      ShareBundle
      → ShareBundle
      → BeaverTriple
      → List GfpScalar
      → (ℕ → ℕ → GfpScalar)
      → Proc Octets ((ShareBundle × BeaverTriple) × List GfpScalar)
  unfolding combined layered size reveal
  reduce_degree_first_layer self y triple q fresh = do
    check (self.rows == y.rows)
    check (self.cols == y.cols)
    check (self.rows == triple.a.rows)
    check (self.cols == triple.a.cols)
    drawn ← or_abort (get_random_pairs (self.rows * 2 * self.cols) q)
    opened ← reveal s base (combined self y drawn.0) fresh
    ret (layered self y triple drawn.0 opened.secrets, drawn.1)

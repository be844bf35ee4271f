-- ===== src/ShareBundle/Mult/Exists.antt =====
-- The joint runs of `ShareBundle::unbounded_prefix_mult`.
use linux_copy.Common.{
  ℕ, suc, ◌+◌, ◌*◌, ◌<◌, ◌≡◌, refl, ap, ap₂, ◌∙◌, sym, subst, fun_ext, arith, List, get_or-tabulate,
  length-tabulate, ltb, lt→ltb, if◌then◌else◌, inr, some, Bool, true, false,
}
use linux_copy.Gfp.{GfpScalar, gfp, ◌⊗◌}
use linux_copy.Poly.Eval.{IsPoly, IsPoly-scale}
use linux_copy.Poly.Sum.{prod}
use linux_copy.Poly.Product.{IsPoly-⊗}
use linux_copy.Stream.{OctetStream}
use linux_copy.Matrix.Table.{get_or-tabulate_all}
use linux_copy.Network.{ret, ◌>>=◌}
use linux_copy.Network.Joint.{Joint, Joint-as, Joint-bind, Joint-ret}
use linux_copy.RandomShare.{get_random_pairs}
use linux_copy.RandomShare.Queues.{get_random_pairs-flatten}
use linux_copy.ShareBase.{ShareBase}
use linux_copy.Share.Reveal.{party}
use linux_copy.ShareBundle.{ShareBundle, size, bundle_of_shape, double_degree, set_shares}
use linux_copy.ShareBundle.Block.Reveal.{IsSupported, bundle_of}
use linux_copy.ShareBundle.Prg.Deal.{IsDealt}
use linux_copy.ShareBundle.Reveal.{reveal}
use linux_copy.ShareBundle.Reveal.Exists.{
  opened, reveal-Joint, opened-secret, opened-cols, opened-degree,
}
use linux_copy.ShareBundle.Reduce.{pair_at}
use linux_copy.ShareBundle.Reduce.Exists.{product_bundle, pairs, pairs_queue}
use linux_copy.ShareBundle.Mult.{prefix_columns, prefix_row, reveal_factors, unbounded_prefix_mult}
use linux_copy.ShareBundle.Mult.Row.{prefix_row_congr, prefix_row-unmask, prefix_columns-entry}

-- What the parties hold: `r` shares the masks of the products and `a` the quotients of a mask and the
-- one before it in the row, at the first column the inverse of the mask, all with degree t.
pub record IsQuotient (c : ShareBase) (rows cols : ℕ) (x a r : ℕ → GfpScalar → GfpScalar)
    : Type 0 where
  pub factor : (e : ℕ) → e < rows * cols → IsPoly (suc c.threshold) (x e)
  pub quotient : (e : ℕ) → e < rows * cols → IsPoly (suc c.threshold) (a e)
  pub mask : (e : ℕ) → e < rows * cols → IsPoly (suc c.threshold) (r e)
  pub first :
      (row : ℕ)
      → row < rows
      → 0 < cols
      → a (row * cols + 0) (gfp 0) ⊗ r (row * cols + 0) (gfp 0) ≡ gfp 1
  pub next :
      (row j : ℕ)
      → row < rows
      → suc j < cols
      → a (row * cols + suc j) (gfp 0) ⊗ r (row * cols + suc j) (gfp 0) ≡ r (row * cols + j) (gfp 0)

pub inside : (rows cols row j : ℕ) → row < rows → j < cols → row * cols + j < rows * cols
inside rows cols row j hr hj = grind arith

-- The polynomial by which the product of a row up to column `j` is shared.
abbrev pub row_product :
    ℕ
    → (ℕ → GfpScalar → GfpScalar)
    → (ℕ → GfpScalar → GfpScalar)
    → (ℕ → GfpScalar → GfpScalar)
    → ℕ
    → ℕ
    → GfpScalar
    → GfpScalar
row_product cols x a r row j p =
    prefix_row (λ k. x (row * cols + k) (gfp 0) ⊗ a (row * cols + k) (gfp 0)) j
    ⊗ r (row * cols + j) p

module _ (c : ShareBase) (rows cols : ℕ) (x a r : ℕ → GfpScalar → GfpScalar)
    (q : IsQuotient c rows cols x a r) (row j : ℕ) (hr : row < rows) (hj : j < cols) where
  pub row_product-IsPoly : IsPoly (suc c.threshold) (row_product cols x a r row j)
  row_product-IsPoly =
      IsPoly-scale (suc c.threshold) _ (r (row * cols + j))
        (q.mask _ (inside rows cols row j hr hj))

  pub row_product-secret :
      row_product cols x a r row j (gfp 0) ≡ prod (suc j) (λ k. x (row * cols + k) (gfp 0))
  row_product-secret =
      prefix_row-unmask (λ k. x (row * cols + k) (gfp 0)) (λ k. a (row * cols + k) (gfp 0))
        (λ k. r (row * cols + k) (gfp 0)) j (q.first row hr (omega arith))
        (λ k hk. q.next row k hr (omega arith))

module _ (s : OctetStream) (c : ShareBase) (rows cols : ℕ) (x a r : ℕ → GfpScalar → GfpScalar)
    (h : IsDealt c) (old : ℕ → ℕ → GfpScalar) (fresh : ℕ → ℕ → ℕ → GfpScalar)
    (rest : ℕ → List GfpScalar) where
  open s use {Octets}
  open c use {n_players, threshold}

  -- The polynomials of the masked factors; past the matrix there is no mask.
  abbrev masked : ℕ → GfpScalar → GfpScalar
  masked e p = x e p ⊗ (if ltb e (rows * cols) then a e p else gfp 0)

  supported : IsSupported c (threshold * 2)
  supported = record {
    valid = h.base.valid;
    relative = h.base.relative;
    enough_players = omega (arith, h.players);
    supported = inr refl;
  }

  abbrev zeros : ℕ → ℕ → GfpScalar
  zeros i e = gfp 0

  abbrev disclosed : ℕ → ShareBundle
  disclosed i = opened s c rows cols (threshold * 2) masked supported zeros fresh i

  -- The end of the program, after the reveal.
  multiplied : ℕ → ShareBundle → ShareBundle × List GfpScalar
  multiplied i res = (
    record res {
      secrets = prefix_columns res.cols res.secrets;
      shares =
          λ e. prefix_columns res.cols res.secrets e ⊗ (pair_at (pairs (rows * cols) r a i) e).0;
    },
    rest i,
  )

  drawn :
      (i : ℕ)
      → get_random_pairs (rows * cols) (pairs_queue (rows * cols) r a rest i)
        ≡ some (pairs (rows * cols) r a i, rest i)
  drawn i =
      ap (λ n. get_random_pairs n (pairs_queue (rows * cols) r a rest i))
        (sym (length-tabulate (rows * cols) _))
      ∙ get_random_pairs-flatten (pairs (rows * cols) r a i) (rest i)

  factors_masked :
      (i : ℕ)
      → double_degree (
          set_shares
            (λ e. x e (gfp (i + 1)) ⊗ (pair_at (pairs (rows * cols) r a i) e).1)
            (bundle_of_shape (party c i) rows cols))
        ≡ bundle_of s c rows cols (threshold * 2) masked supported zeros fresh i
  unfolding double_degree set_shares bundle_of_shape
  factors_masked i =
      ap
        (λ m. record {
          rows = rows;
          cols = cols;
          secrets = λ e. gfp 0;
          degree = threshold * 2;
          shares = λ e. x e (gfp (i + 1)) ⊗ m e;
        })
        (fun_ext quotient_at)
    where
      second : Bool → ℕ → GfpScalar × GfpScalar → GfpScalar × GfpScalar
      second b e d = if b then (r e (gfp (i + 1)), a e (gfp (i + 1))) else d

      chosen :
          (b : Bool) (e : ℕ)
          → (second b e (gfp 0, gfp 0)).1 ≡ (if b then a e (gfp (i + 1)) else gfp 0)
      chosen true e = refl
      chosen false e = refl

      quotient_at :
          (e : ℕ)
          → (pair_at (pairs (rows * cols) r a i) e).1
            ≡ (if ltb e (rows * cols) then a e (gfp (i + 1)) else gfp 0)
      quotient_at e =
          ap (λ (p : GfpScalar × GfpScalar). p.1)
            (get_or-tabulate_all (rows * cols) _ e (gfp 0, gfp 0))
          ∙ chosen (ltb e (rows * cols)) e

  program-stages :
      (i : ℕ)
      → unbounded_prefix_mult s
          (party c i)
          (product_bundle c rows cols x old i)
          (pairs_queue (rows * cols) r a rest i)
          (fresh i)
        ≡ (reveal s
              (party c i)
              (bundle_of s c rows cols (threshold * 2) masked supported zeros fresh i)
              (fresh i)
            >>= λ res. ret (multiplied i res))
  unfolding unbounded_prefix_mult reveal_factors size multiplied
  program-stages i =
      rw (unbounded_prefix_mult, drawn i)
        (ap (λ b. reveal s (party c i) b (fresh i) >>= λ res. ret (multiplied i res))
          (factors_masked i))

  all_multiplied :
      Joint Octets
        (ShareBundle × List GfpScalar)
        n_players
        (λ i.
          unbounded_prefix_mult s
            (party c i)
            (product_bundle c rows cols x old i)
            (pairs_queue (rows * cols) r a rest i)
            (fresh i))
        (λ i. multiplied i (disclosed i))
  all_multiplied =
      Joint-as n_players
        (λ i.
          reveal s (party c i)
            (bundle_of s c rows cols (threshold * 2) masked supported zeros fresh i) (fresh i)
          >>= λ res. ret (multiplied i res))
        _ (λ i. multiplied i (disclosed i)) (λ i hi. sym (program-stages i))
        (Joint-bind n_players _ (λ i res. ret (multiplied i res)) disclosed
          (λ i. multiplied i (disclosed i))
          (reveal-Joint s c rows cols (threshold * 2) masked supported zeros fresh)
          (Joint-ret n_players (λ i. multiplied i (disclosed i))))

  module _ (q : IsQuotient c rows cols x a r) (row j : ℕ) (hr : row < rows) (hj : j < cols) where
    abbrev secret_at : (ℕ → GfpScalar → GfpScalar) → ℕ → GfpScalar
    secret_at f k = f (row * cols + k) (gfp 0)

    -- What all parties know of the row.
    abbrev public_product : GfpScalar
    public_product = prefix_row (λ k. secret_at x k ⊗ secret_at a k) j

    factor_disclosed :
        (i k : ℕ)
        → k < cols
        → (disclosed i).secrets (row * cols + k) ≡ secret_at x k ⊗ secret_at a k
    factor_disclosed i k hk =
        let below = inside rows cols row k hr hk in
        opened-secret s c rows cols (threshold * 2) masked supported zeros fresh i (row * cols + k)
          below
          (subst (IsPoly (suc (threshold * 2))) (fun_ext (λ p. sym (masked_inside p below))) (
            IsPoly-⊗ threshold (x (row * cols + k)) (a (row * cols + k)) (q.factor _ below)
              (q.quotient _ below)))
        ∙ masked_inside (gfp 0) below
      where
        masked_inside :
            (p : GfpScalar)
            → row * cols + k < rows * cols
            → masked (row * cols + k) p ≡ x (row * cols + k) p ⊗ a (row * cols + k) p
        masked_inside p below = rw (lt→ltb (row * cols + k) (rows * cols) below) refl

    product_disclosed :
        (i : ℕ)
        → prefix_columns (disclosed i).cols (disclosed i).secrets (row * cols + j) ≡ public_product
    product_disclosed i =
        ap (λ n. prefix_columns n (disclosed i).secrets (row * cols + j))
          (opened-cols s c rows cols (threshold * 2) masked supported zeros fresh i)
        ∙ prefix_columns-entry cols row j (disclosed i).secrets hj
        ∙ prefix_row_congr j _ _ (λ k hk. factor_disclosed i k (omega arith))

    result-share :
        (i : ℕ)
        → (multiplied i (disclosed i)).0.shares (row * cols + j)
          ≡ row_product cols x a r row j (gfp (i + 1))
    unfolding multiplied
    result-share i = ap₂ ◌⊗◌ (product_disclosed i) (
        ap (λ (p : GfpScalar × GfpScalar). p.0)
          (get_or-tabulate (rows * cols) _ (row * cols + j) (gfp 0, gfp 0)
            (inside rows cols row j hr hj)))

-- The joint runs, with the polynomials of the shares.
pub row_products-Joint :
    (s : OctetStream) (c : ShareBase) (rows cols : ℕ) (x a r : ℕ → GfpScalar → GfpScalar)
    (h : IsDealt c)
    → IsQuotient c rows cols x a r
    → (old : ℕ → ℕ → GfpScalar) (fresh : ℕ → ℕ → ℕ → GfpScalar) (rest : ℕ → List GfpScalar)
    → (results : ℕ → ShareBundle × List GfpScalar) × Joint s.Octets
        (ShareBundle × List GfpScalar)
        c.n_players
        (λ i.
          unbounded_prefix_mult s
            (party c i)
            (product_bundle c rows cols x old i)
            (pairs_queue (rows * cols) r a rest i)
            (fresh i))
        results
      × ((i : ℕ) → ((results i).0.degree ≡ c.threshold * 2) × ((results i).1 ≡ rest i))
      × ((row j i : ℕ)
          → row < rows
          → j < cols
          → (results i).0.shares (row * cols + j) ≡ row_product cols x a r row j (gfp (i + 1)))
unfolding multiplied
row_products-Joint s c rows cols x a r h q old fresh rest = (
  λ i.
      multiplied s c rows cols x a r h old fresh rest i
        (disclosed s c rows cols x a r h old fresh rest i),
  all_multiplied s c rows cols x a r h old fresh rest,
  λ i. (
    opened-degree s c rows cols (c.threshold * 2) (masked s c rows cols x a r h old fresh rest)
        (supported s c rows cols x a r h old fresh rest) (λ i e. gfp 0) fresh i,
    refl,
  ),
  λ row j i hr hj. result-share s c rows cols x a r h old fresh rest q row j hr hj i,
)

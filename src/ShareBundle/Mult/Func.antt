-- ===== src/ShareBundle/Mult/Func.antt =====
-- `ShareBundle::evalFunc`: the polynomial of a table at each entry, on shares.
use linux_copy.Common.{
  ℕ, zero, suc, ◌+◌, ◌*◌, ◌/◌, ◌<◌, ◌≡◌, refl, ap, ap₂, ◌∙◌, sym, subst, fun_ext, arith, List, [],
  ◌∷◌, length, get_or, some,
}
use linux_copy.Gfp.{GfpScalar, gfp, ◌⊕◌, ◌⊗◌}
use linux_copy.Gfp.Ring.{gfp-+, gfp-*, gfp-value, ⊗_comm, ⊗_assoc, one-⊗}
use linux_copy.Poly.Eval.{eval, IsPoly, IsPoly-constant, IsPoly-⊕, IsPoly-scale}
use linux_copy.Poly.Sum.{prod, sum, sum_congr, ⊗-sum, dot}
use linux_copy.Stream.{OctetStream}
use linux_copy.Network.{Proc}
use linux_copy.Network.Joint.{Joint}
use linux_copy.ConstMatrix.{FuncName, get_func_consts}
use linux_copy.ConstMatrix.Laws.{value_at, get_func_consts-gate}
use linux_copy.ShareBase.{ShareBase}
use linux_copy.Share.Reveal.{party}
use linux_copy.ShareBundle.{ShareBundle, bundle_of_shape, set_shares}
use linux_copy.ShareBundle.Reduce.Exists.{product_bundle, pairs_queue}
use linux_copy.ShareBundle.Mult.{unbounded_prefix_mult, eval_func, with_ones}
use linux_copy.ShareBundle.Mult.Exists.{IsQuotient, row_product}

-- A combination of polynomials.
pub IsPoly-dot :
    (n m : ℕ) (y : ℕ → GfpScalar → GfpScalar) (c : ℕ → GfpScalar)
    → ((k : ℕ) → k < n → IsPoly (suc m) (y k))
    → IsPoly (suc m) (λ p. dot n (λ k. y k p) c)
unfolding dot sum
IsPoly-dot zero m y c h = IsPoly-constant m (gfp 0)
IsPoly-dot (suc n) m y c h =
    IsPoly-⊕ (suc m) (λ p. y 0 p ⊗ c 0) _
      (subst (IsPoly (suc m)) (fun_ext (λ p. ⊗_comm (c 0) (y 0 p)))
        (IsPoly-scale (suc m) (c 0) (y 0) (h 0 (omega arith))))
      (IsPoly-dot n m (λ k. y (suc k)) (λ k. c (suc k)) (λ k hk. h (suc k) (omega arith)))

-- The powers of a value, with the coefficients, give the value of the polynomial.
pub dot-powers :
    (n : ℕ) (c : ℕ → GfpScalar) (x : GfpScalar) → dot n (λ k. prod k (λ l. x)) c ≡ eval n c x
unfolding dot sum prod eval
dot-powers zero c x = refl
dot-powers (suc n) c x = ap₂ ◌⊕◌ (one-⊗ (c 0)) (
    sum_congr n _ _ (λ k hk. ⊗_assoc x (prod k (λ l. x)) (c (suc k)))
    ∙ sym (⊗-sum n x (λ k. prod k (λ l. x) ⊗ c (suc k)))
    ∙ ap (◌⊗◌ x) (dot-powers n (λ k. c (suc k)) x))

-- A table in the field and modulo the prime.
pub eval-value_at :
    (table : List ℕ) (x : ℕ)
    → eval (length table) (λ k. gfp (get_or table k 0)) (gfp x) ≡ gfp (value_at table x)
unfolding eval value_at gfp
eval-value_at [] x = refl
eval-value_at (c ∷ table) x =
    ap (λ (y : GfpScalar). gfp c ⊕ gfp x ⊗ y) (eval-value_at table x)
    ∙ ap (◌⊕◌ (gfp c)) (sym (gfp-* x (value_at table x)))
    ∙ sym (gfp-+ c (x * value_at table x))
    ∙ sym (gfp-value (gfp (c + x * value_at table x)))

-- The coefficients of a table, and the polynomials of the powers of one entry.
abbrev coefficients : List ℕ → ℕ → GfpScalar
coefficients table k = gfp (get_or table k 0)

-- The entry that each row of powers is of.
abbrev pub repeated : ℕ → (ℕ → GfpScalar → GfpScalar) → ℕ → GfpScalar → GfpScalar
repeated degree x e = x (e / degree)

module _ (c : ShareBase) (rows cols degree : ℕ) (x a r : ℕ → GfpScalar → GfpScalar) (table : List ℕ)
    (len : length table ≡ degree + 1)
    (q : IsQuotient c (rows * cols) degree (repeated degree x) a r) (e : ℕ)
    (he : e < rows * cols) where
  open c use {threshold}

  power : ℕ → GfpScalar → GfpScalar
  power zero p = gfp 1
  power (suc k) p = row_product degree (repeated degree x) a r e k p

  -- The polynomial of the value.
  value : GfpScalar → GfpScalar
  value p = dot (degree + 1) (λ k. power k p) (coefficients table)

module _ (s : OctetStream) (c : ShareBase) (rows cols : ℕ) (fn : FuncName) (degree : ℕ)
    (table : List ℕ) (found : get_func_consts fn degree ≡ some table)
    (x a r : ℕ → GfpScalar → GfpScalar) (old : ℕ → ℕ → GfpScalar) (fresh : ℕ → ℕ → ℕ → GfpScalar)
    (rest : ℕ → List GfpScalar) where
  open s use {Octets}

  abbrev evaluation : ℕ → Proc Octets (ShareBundle × List GfpScalar)
  evaluation i =
      eval_func s (party c i) (product_bundle c rows cols x old i) fn degree
        (pairs_queue (rows * cols * degree) r a rest i) (fresh i)

  abbrev multiplication : ℕ → Proc Octets (ShareBundle × List GfpScalar)
  multiplication i =
      unbounded_prefix_mult s (party c i)
        (product_bundle c (rows * cols) degree (repeated degree x) (λ i e. gfp 0) i)
        (pairs_queue (rows * cols * degree) r a rest i) (fresh i)

  -- The end of the program, after the multiplication.
  evaluated : ShareBundle × List GfpScalar → ShareBundle × List GfpScalar
  evaluated powers = (
    set_shares (λ e. dot (degree + 1) (with_ones degree powers.0.shares e) (coefficients table))
        (bundle_of_shape c rows cols),
    powers.1,
  )

  len : length table ≡ degree + 1
  len = (get_func_consts-gate fn degree table found).0

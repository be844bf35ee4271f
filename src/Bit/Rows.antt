-- ===== src/Bit/Rows.antt =====
-- The rows of `deltaXor`, and products in the reverse order.
use native.Mathlib.Nat.{mul-add-mod_self_right, mod-eq_of_lt}
use linux_copy.Common.{
  ℕ, zero, suc, ◌+◌, ◌-◌, ◌*◌, ◌%◌, ◌<◌, ◌≡◌, refl, ap, ap₂, ◌∙◌, sym, fun_ext, arith, Bool, true,
  false, ==_ne, ==_iff, ℕ_discrete,
}
use linux_copy.Scalar.{add_mod, additive_inverse, mult_mod}
use linux_copy.Gfp.{GfpScalar, ext, gfp, ◌⊕◌, ◌⊖◌, ◌⊗◌}
use linux_copy.Gfp.Ring.{⊕-zero}
use linux_copy.Gfp.Inverse.{sub_of_add, sub_self}
use linux_copy.Poly.Sum.{prod, prod_congr, sum, dot}
use linux_copy.ShareBundle.Mult.{reverse_rows}
use linux_copy.ShareBundle.Mult.Row.{prod-last, row_of_entry}
use linux_copy.Bit.{delta}
use linux_copy.Bit.Less.{any, weighted_deltas, bit, xor}

pub prod-reverse : (n : ℕ) (f : ℕ → GfpScalar) → prod n (λ k. f (n - 1 - k)) ≡ prod n f
unfolding prod
prod-reverse zero f = refl
prod-reverse (suc n) f =
    ap₂ ◌⊗◌ (ap f (omega arith)) (
      prod_congr n _ _ (λ k hk. ap f {x = suc n - 1 - suc k} {y = n - 1 - k} (omega arith))
      ∙ prod-reverse n f)
    ∙ sym (prod-last n f)

-- The disjunction of a row from column `j` on.
abbrev pub any_from : ℕ → ℕ → (ℕ → GfpScalar) → GfpScalar
any_from n j x = any (n - j) (λ k. x (j + k))

any_from-suc :
    (n j : ℕ) (x : ℕ → GfpScalar) → any_from (suc n) (suc j) x ≡ any_from n j (λ k. x (suc k))
any_from-suc n j x =
    ap₂ (λ l f. any l f) {x = suc n - suc j} {y = n - j} (omega arith)
      (fun_ext (λ k. ap x {x = suc j + k} {y = suc (j + k)} (omega arith)))

any_from-zero : (n : ℕ) (x : ℕ → GfpScalar) → any_from n 0 x ≡ any n x
any_from-zero n x =
    ap₂ (λ l f. any l f) {x = n - 0} {y = n} (omega arith)
      (fun_ext (λ k. ap x {x = 0 + k} {y = k} (omega arith)))

dot-weighted_deltas :
    (n : ℕ) (d x b : ℕ → GfpScalar)
    → ((j : ℕ) → j < n → d j ≡ any_from n j x ⊖ any_from n (suc j) x)
    → dot n d b ≡ weighted_deltas n x b
unfolding dot sum weighted_deltas
dot-weighted_deltas zero d x b h = refl
dot-weighted_deltas (suc n) d x b h =
    ap₂ ◌⊕◌
      (ap (λ (t : GfpScalar). t ⊗ b 0)
        (h 0 (omega arith)
          ∙ ap₂ ◌⊖◌ (any_from-zero (suc n) x)
              (any_from-suc n 0 x ∙ any_from-zero n (λ k. x (suc k)))))
      (dot-weighted_deltas n (λ k. d (suc k)) (λ k. x (suc k)) (λ k. b (suc k))
        (λ j hj. h (suc j) (omega arith) ∙ ap₂ ◌⊖◌ (any_from-suc n j x) (any_from-suc n (suc j) x)))

pub weighted_congr :
    (n : ℕ) (x b b' : ℕ → GfpScalar)
    → ((k : ℕ) → k < n → b k ≡ b' k)
    → weighted_deltas n x b ≡ weighted_deltas n x b'
unfolding weighted_deltas
weighted_congr zero x b b' e = refl
weighted_congr (suc n) x b b' e =
    ap₂ ◌⊕◌ (ap (◌⊗◌ (any (suc n) x ⊖ any n (λ k. x (suc k)))) (e 0 (omega arith))) (
      weighted_congr n (λ k. x (suc k)) (λ k. b (suc k)) (λ k. b' (suc k))
        (λ k h. e (suc k) (omega arith)))

pub column_of_entry : (len row j : ℕ) → j < len → (row * len + j) % len ≡ j
column_of_entry len row j h = mul-add-mod_self_right row len j ∙ mod-eq_of_lt h

-- `deltaXor` at a column before the last, and at the last.
pub delta-inner :
    (len row j : ℕ) (m : ℕ → GfpScalar)
    → suc j < len
    → delta len m (row * len + j) ≡ m (row * len + j) ⊖ m (row * len + suc j)
unfolding delta
delta-inner len row j m h =
    rw (column_of_entry len row j (omega arith), ==_ne j (len - 1) (omega arith))
      (ap (λ e. m (row * len + j) ⊖ m e) {x = row * len + j + 1} {y = row * len + suc j}
        (omega arith))

pub delta-last :
    (len row j : ℕ) (m : ℕ → GfpScalar)
    → suc j ≡ len
    → delta len m (row * len + j) ≡ m (row * len + j)
unfolding delta
delta-last len row j m h =
    rw (column_of_entry len row j (omega arith), (==_iff j (len - 1)).1 (omega arith)) refl

sub-zero : (x : GfpScalar) → x ⊖ gfp 0 ≡ x
sub-zero x = sub_of_add x (gfp 0) x (sym (⊕-zero x))

-- From the disjunctions of a row, the inner product of `deltaXor` and a row of `b`.
pub dot-delta :
    (len row : ℕ) (m x b : ℕ → GfpScalar)
    → ((j : ℕ) → j < len → m (row * len + j) ≡ any_from len j x)
    → dot len (λ j. delta len m (row * len + j)) b ≡ weighted_deltas len x b
dot-delta len row m x b h = dot-weighted_deltas len _ x b at
  where
    nothing_after : (j : ℕ) → suc j ≡ len → any_from len (suc j) x ≡ gfp 0
    nothing_after j e =
        ap (λ l. any l (λ k. x (suc j + k))) {x = len - suc j} {y = 0} (omega arith)
        ∙ (unfold prod in sub_self (gfp 1))

    at : (j : ℕ) → j < len → delta len m (row * len + j) ≡ any_from len j x ⊖ any_from len (suc j) x
    at j hj = elim (ℕ_discrete (suc j) len) [
      | yes last ↦
          delta-last len row j m last
          ∙ h j hj
          ∙ sym (sub-zero (any_from len j x))
          ∙ sym (ap (◌⊖◌ (any_from len j x)) (nothing_after j last))
      | no inner ↦
          delta-inner len row j m (omega arith) ∙ ap₂ ◌⊖◌ (h j hj) (h (suc j) (omega arith))
    ]

pub delta_congr :
    (len row j : ℕ) (m m' : ℕ → GfpScalar)
    → j < len
    → ((k : ℕ) → k < len → m (row * len + k) ≡ m' (row * len + k))
    → delta len m (row * len + j) ≡ delta len m' (row * len + j)
delta_congr len row j m m' hj e = elim (ℕ_discrete (suc j) len) [
  | yes last ↦ delta-last len row j m last ∙ e j hj ∙ sym (delta-last len row j m' last)
  | no inner ↦
      delta-inner len row j m (omega arith)
      ∙ ap₂ ◌⊖◌ (e j hj) (e (suc j) (omega arith))
      ∙ sym (delta-inner len row j m' (omega arith))
]

pub reverse_rows-entry :
    (len row j : ℕ) (m : ℕ → GfpScalar)
    → j < len
    → reverse_rows len m (row * len + j) ≡ m (row * len + (len - 1 - j))
unfolding reverse_rows
reverse_rows-entry len row j m h =
    ap₂ (λ q k. m (q * len + (len - 1 - k))) (row_of_entry len row j h)
      (column_of_entry len row j h)

-- The exclusive or of scalars that are bits.
pub xor-bit : (a b : Bool) → (bit a ⊕ bit b) ⊖ gfp 2 ⊗ bit a ⊗ bit b ≡ bit (xor a b)
unfolding gfp ◌⊕◌ ◌⊖◌ ◌⊗◌ add_mod additive_inverse mult_mod
xor-bit true true = ext refl
xor-bit true false = ext refl
xor-bit false true = ext refl
xor-bit false false = ext refl

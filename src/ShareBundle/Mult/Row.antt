-- ===== src/ShareBundle/Mult/Row.antt =====
-- One row of the multiplications of unbounded fan-in: prefix products, and how the masks cancel.
use native.Mathlib.Nat.{mul-add-div_right, mul-add-mod_self_right, div-eq_of_lt, mod-eq_of_lt}
use linux_copy.Common.{ℕ, zero, suc, ◌+◌, ◌*◌, ◌/◌, ◌<◌, ◌≡◌, refl, ap, ap₂, ◌∙◌, sym, arith}
use linux_copy.Gfp.{GfpScalar, gfp, ◌⊗◌}
use linux_copy.Gfp.Ring.{⊗_comm, ⊗_assoc}
use linux_copy.Poly.Sum.{prod}
use linux_copy.ShareBundle.Mult.{prefix_row, prefix_columns}

pub prod-last : (n : ℕ) (f : ℕ → GfpScalar) → prod (suc n) f ≡ f n ⊗ prod n f
unfolding prod
prod-last zero f = refl
prod-last (suc n) f =
    ap (◌⊗◌ (f 0)) (prod-last n (λ k. f (suc k)))
    ∙ sym (⊗_assoc (f 0) (f (suc n)) _)
    ∙ ap (λ (t : GfpScalar). t ⊗ prod n (λ k. f (suc k))) (⊗_comm (f 0) (f (suc n)))
    ∙ ⊗_assoc (f (suc n)) (f 0) _

pub prefix_row_congr :
    (j : ℕ) (f g : ℕ → GfpScalar)
    → ((k : ℕ) → k < suc j → f k ≡ g k)
    → prefix_row f j ≡ prefix_row g j
unfolding prefix_row
prefix_row_congr zero f g e = e 0 (omega arith)
prefix_row_congr (suc j) f g e =
    ap₂ ◌⊗◌ (e (suc j) (omega arith)) (prefix_row_congr j f g (λ k h. e k (omega arith)))

-- The mask at each place is the one before it over the new one: only the last one is left.
pub prefix_row-unmask :
    (x a r : ℕ → GfpScalar) (j : ℕ)
    → a 0 ⊗ r 0 ≡ gfp 1
    → ((k : ℕ) → k < j → a (suc k) ⊗ r (suc k) ≡ r k)
    → prefix_row (λ k. x k ⊗ a k) j ⊗ r j ≡ prod (suc j) x
unfolding prefix_row prod
prefix_row-unmask x a r zero first next = ⊗_assoc (x 0) (a 0) (r 0) ∙ ap (◌⊗◌ (x 0)) first
prefix_row-unmask x a r (suc j) first next =
    ⊗_assoc (x (suc j) ⊗ a (suc j)) before (r (suc j))
    ∙ ⊗_assoc (x (suc j)) (a (suc j)) (before ⊗ r (suc j))
    ∙ ap (◌⊗◌ (x (suc j))) (
        sym (⊗_assoc (a (suc j)) before (r (suc j)))
        ∙ ap (λ (t : GfpScalar). t ⊗ r (suc j)) (⊗_comm (a (suc j)) before)
        ∙ ⊗_assoc before (a (suc j)) (r (suc j))
        ∙ ap (◌⊗◌ before) (next j (omega arith))
        ∙ prefix_row-unmask x a r j first (λ k h. next k (omega arith)))
    ∙ sym (prod-last (suc j) x)
  where
    before : GfpScalar
    before = prefix_row (λ k. x k ⊗ a k) j

pub row_of_entry : (cols row j : ℕ) → j < cols → (row * cols + j) / cols ≡ row
row_of_entry cols row j h =
    mul-add-div_right (omega arith) row j ∙ ap (λ n. row + n) (div-eq_of_lt h) ∙ omega arith

-- The entry of a row and a column.
pub prefix_columns-entry :
    (cols row j : ℕ) (m : ℕ → GfpScalar)
    → j < cols
    → prefix_columns cols m (row * cols + j) ≡ prefix_row (λ k. m (row * cols + k)) j
unfolding prefix_columns
prefix_columns-entry cols row j m h =
    ap₂ (λ q k. prefix_row (λ l. m (q * cols + l)) k) (row_of_entry cols row j h)
      (mul-add-mod_self_right row cols j ∙ mod-eq_of_lt h)

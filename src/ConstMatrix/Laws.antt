-- ===== src/ConstMatrix/Laws.antt =====
-- What the tables of Math/constMatrix.h compute, checked entry by entry.
use linux_copy.Common.{
  dec_lt, ℕ_discrete, subst, ℕ, zero, suc, ◌+◌, ◌*◌, ◌%◌, ◌<◌, ◌≤◌, ◌≡◌, refl, sym, ◌∙◌, arith,
  Bool, true, false, ◌&&◌, ◌==◌, ==_iff, if◌then◌else◌, List, [], ◌∷◌, length, Option, none, some,
}
use mathlib.Core.Option.{none-ne-some}
use linux_copy.Scalar.{pr}
use linux_copy.ConstMatrix.{FuncName, or_name, and_name, xor_name, get_func_consts}

-- The value of the polynomial with these coefficients, modulo the prime.
unfoldable pub value_at : List ℕ → ℕ → ℕ
value_at [] x = 0
value_at (c ∷ cs) x = (c + x * value_at cs x) % pr

-- The function of the number `ones` of the bits that are one, among `degree` bits.
unfoldable pub gate : FuncName → ℕ → ℕ → ℕ
gate or_name degree ones = if ones == 0 then 0 else 1
gate and_name degree ones = if ones == degree then 1 else 0
gate xor_name degree ones = ones % 2

-- The rows of the truth table below `n`.
rows_agree : FuncName → ℕ → List ℕ → ℕ → Bool
unfolding value_at gate
rows_agree fn degree table zero = true
rows_agree fn degree table (suc n) =
    (value_at table (n + 1) == gate fn degree n) && rows_agree fn degree table n

table_agrees : FuncName → ℕ → Option (List ℕ) → Bool
unfolding rows_agree
table_agrees fn degree none = true
table_agrees fn degree (some table) =
    (length table == degree + 1) && rows_agree fn degree table (degree + 1)

tables_agree : FuncName → ℕ → Bool
unfolding table_agrees get_func_consts
tables_agree fn zero = true
tables_agree fn (suc n) = table_agrees fn n (get_func_consts fn n) && tables_agree fn n

or_agree : tables_agree or_name 33 ≡ true
unfolding tables_agree
or_agree = refl

and_agree : tables_agree and_name 33 ≡ true
unfolding tables_agree
and_agree = refl

xor_agree : tables_agree xor_name 33 ≡ true
unfolding tables_agree
xor_agree = refl

and_true : (a b : Bool) → (a && b) ≡ true → (a ≡ true) × (b ≡ true)
and_true true true e = (refl, refl)
and_true true false e = (refl, e)
and_true false b e = ground arith

tables_agree_below :
    (fn : FuncName) (n degree : ℕ)
    → tables_agree fn n ≡ true
    → degree < n
    → table_agrees fn degree (get_func_consts fn degree) ≡ true
unfolding tables_agree
tables_agree_below fn zero degree e h = elim h [ ]
tables_agree_below fn (suc n) degree e h =
    let (here, below) = and_true _ _ e in
    elim (ℕ_discrete degree n) [
      | yes same ↦ subst (λ d. table_agrees fn d (get_func_consts fn d) ≡ true) (sym same) here
      | no ne ↦ tables_agree_below fn n degree below (omega arith)
    ]

rows_agree_below :
    (fn : FuncName) (degree : ℕ) (table : List ℕ) (n ones : ℕ)
    → rows_agree fn degree table n ≡ true
    → ones < n
    → value_at table (ones + 1) ≡ gate fn degree ones
unfolding rows_agree
rows_agree_below fn degree table zero ones e h = elim h [ ]
rows_agree_below fn degree table (suc n) ones e h =
    let (here, below) = and_true _ _ e in
    elim (ℕ_discrete ones n) [
      | yes same ↦
          subst (λ k. value_at table (k + 1) ≡ gate fn degree k) (sym same) ((==_iff _ _).0 here)
      | no ne ↦ rows_agree_below fn degree table n ones below (omega arith)
    ]

agree : (fn : FuncName) → tables_agree fn 33 ≡ true
agree or_name = or_agree
agree and_name = and_agree
agree xor_name = xor_agree

none_beyond : (fn : FuncName) (degree : ℕ) → 33 ≤ degree → get_func_consts fn degree ≡ none
unfolding get_func_consts
none_beyond or_name degree h = ground arith
none_beyond and_name degree h = ground arith
none_beyond xor_name degree h = ground arith

-- Whatever table `getFuncConsts` returns for a number of bits has one entry more than there are
-- bits, and its polynomial, evaluated modulo the prime at one more than the number of the bits that
-- are one, is the disjunction, the conjunction or the parity of the bits.
pub get_func_consts-gate :
    (fn : FuncName) (degree : ℕ) (table : List ℕ)
    → get_func_consts fn degree ≡ some table
    → (length table ≡ degree + 1)
      × ((ones : ℕ) → ones ≤ degree → value_at table (ones + 1) ≡ gate fn degree ones)
unfolding table_agrees
get_func_consts-gate fn degree table e = elim (dec_lt degree 33) [
  | no far ↦ absurd (none-ne-some table (sym (none_beyond fn degree (omega arith)) ∙ e))
  | yes near ↦
      let (len, rows) = and_true _ _ (
        subst (λ o. table_agrees fn degree o ≡ true) e
          (tables_agree_below fn 33 degree (agree fn) near)) in
      (
        (==_iff _ _).0 len,
        λ ones h. rows_agree_below fn degree table (degree + 1) ones rows (omega arith),
      )
]

-- ===== src/ConstMatrix.antt =====
-- Math/constMatrix.h, in its default build `PR_31`: the coefficients of the polynomials that compute
-- the disjunction, the conjunction and the parity of bits from one more than their sum, and the
-- functions that select a table. A table is the list of its words, the constant term first.
pub mod Laws
use linux_copy.Common.{ℕ, ◌==◌, if◌then◌else◌, List, [], ◌∷◌, Option, none, some}

abbrev pub const_or1_bits : List ℕ
const_or1_bits = 2147483646 ∷ 1 ∷ []

abbrev pub const_or2_bits : List ℕ
const_or2_bits = 2147483645 ∷ 1073741826 ∷ 1073741823 ∷ []

abbrev pub const_or3_bits : List ℕ
const_or3_bits = 2147483644 ∷ 1431655769 ∷ 1073741822 ∷ 1789569706 ∷ []

abbrev pub const_or4_bits : List ℕ
const_or4_bits = 2147483643 ∷ 178956977 ∷ 1521134247 ∷ 1968526677 ∷ 626349397 ∷ []

abbrev pub const_or5_bits : List ℕ
const_or5_bits = 2147483642 ∷ 1932735291 ∷ 1789569701 ∷ 2058005163 ∷ 357913941 ∷ 304226850 ∷ []

abbrev pub const_or6_bits : List ℕ
const_or6_bits =
    2147483641 ∷ 1181116017 ∷ 1049880887 ∷ 671088642 ∷ 74565404 ∷ 1369020825 ∷ 2096779172 ∷ []

abbrev pub const_or7_bits : List ℕ
const_or7_bits =
    2147483640 ∷ 122713365 ∷ 417566255 ∷ 310192086 ∷ 909697933 ∷ 1553943028 ∷ 1893961272
    ∷ 1234377009 ∷ []

abbrev pub const_or8_bits : List ℕ
const_or8_bits =
    2147483639 ∷ 1480229816 ∷ 991293778 ∷ 28334859 ∷ 716200708 ∷ 1366038209 ∷ 862721729 ∷ 1420364432
    ∷ 1724751065 ∷ []

abbrev pub const_and1_bits : List ℕ
const_and1_bits = 2147483646 ∷ 1 ∷ []

abbrev pub const_and2_bits : List ℕ
const_and2_bits = 1 ∷ 1073741822 ∷ 1073741824 ∷ []

abbrev pub const_and3_bits : List ℕ
const_and3_bits = 2147483646 ∷ 357913943 ∷ 2147483646 ∷ 1789569706 ∷ []

abbrev pub const_and4_bits : List ℕ
const_and4_bits = 1 ∷ 1252698792 ∷ 1700091222 ∷ 1968526676 ∷ 1521134250 ∷ []

abbrev pub const_and5_bits : List ℕ
const_and5_bits = 2147483646 ∷ 1753778314 ∷ 268435454 ∷ 89478486 ∷ 1879048191 ∷ 304226850 ∷ []

abbrev pub const_and6_bits : List ℕ
const_and6_bits = 1 ∷ 751619274 ∷ 739688814 ∷ 1386916521 ∷ 283348537 ∷ 1082689672 ∷ 50704475 ∷ []

abbrev pub const_and7_bits : List ℕ
const_and7_bits =
    2147483646 ∷ 1089080995 ∷ 1515169015 ∷ 1786587091 ∷ 835132529 ∷ 184922203 ∷ 1944665747
    ∷ 1234377009 ∷ []

abbrev pub const_and8_bits : List ℕ
const_and8_bits =
    1 ∷ 789967196 ∷ 1573756124 ∷ 281857227 ∷ 193497225 ∷ 187904819 ∷ 1031239543 ∷ 1961496224
    ∷ 422732582 ∷ []

abbrev pub const_and16_bits : List ℕ
const_and16_bits =
    1 ∷ 1366869524 ∷ 898997883 ∷ 882203628 ∷ 469464442 ∷ 1244796818 ∷ 966139079 ∷ 1443938264
    ∷ 975111214 ∷ 252205337 ∷ 1909714232 ∷ 1068090755 ∷ 836829403 ∷ 1514608695 ∷ 2073872857
    ∷ 1890963382 ∷ 1533547309 ∷ []

abbrev pub const_and32_bits : List ℕ
const_and32_bits =
    1 ∷ 1618843883 ∷ 489735049 ∷ 1182983401 ∷ 505227199 ∷ 59713576 ∷ 2010253104 ∷ 638793373
    ∷ 293690690 ∷ 2002692183 ∷ 1134412297 ∷ 1874182322 ∷ 1224085901 ∷ 503474299 ∷ 432088043
    ∷ 1982756836 ∷ 1860867313 ∷ 1159601743 ∷ 1460510234 ∷ 1349038389 ∷ 615027772 ∷ 250794342
    ∷ 1571647141 ∷ 248716233 ∷ 253242131 ∷ 363353216 ∷ 1583218092 ∷ 1198742991 ∷ 1364732016
    ∷ 1365136495 ∷ 226096170 ∷ 307304054 ∷ 1081294216 ∷ []

abbrev pub const_xor8_bits : List ℕ
const_xor8_bits =
    2147483392 ∷ 511306287 ∷ 2140665578 ∷ 954437524 ∷ 1002158929 ∷ 954437196 ∷ 1574821339
    ∷ 1874787311 ∷ 1724804326 ∷ []

-- `none` is a failed assertion.
unfoldable pub get_func_or_consts : ℕ → Option (List ℕ)
get_func_or_consts degree =
    if degree == 8
    then some const_or8_bits
    else if degree == 7
    then some const_or7_bits
    else if degree == 6
    then some const_or6_bits
    else if degree == 5
    then some const_or5_bits
    else if degree == 4
    then some const_or4_bits
    else if degree == 3
    then some const_or3_bits
    else if degree == 2
    then some const_or2_bits
    else if degree == 1
    then some const_or1_bits
    else none

-- `none` is a failed assertion.
unfoldable pub get_func_and_consts : ℕ → Option (List ℕ)
get_func_and_consts degree =
    if degree == 32
    then some const_and32_bits
    else if degree == 16
    then some const_and16_bits
    else if degree == 8
    then some const_and8_bits
    else if degree == 7
    then some const_and7_bits
    else if degree == 6
    then some const_and6_bits
    else if degree == 5
    then some const_and5_bits
    else if degree == 4
    then some const_and4_bits
    else if degree == 3
    then some const_and3_bits
    else if degree == 2
    then some const_and2_bits
    else if degree == 1
    then some const_and1_bits
    else none

-- `none` is a failed assertion.
unfoldable pub get_func_xor_consts : ℕ → Option (List ℕ)
get_func_xor_consts degree = if degree == 8 then some const_xor8_bits else none

-- The strings "OR", "AND" and "XOR".
pub data FuncName : Type 0 where
  or_name : FuncName
  and_name : FuncName
  xor_name : FuncName

unfoldable pub get_func_consts : FuncName → ℕ → Option (List ℕ)
unfolding get_func_or_consts get_func_and_consts get_func_xor_consts
get_func_consts or_name degree = get_func_or_consts degree
get_func_consts and_name degree = get_func_and_consts degree
get_func_consts xor_name degree = get_func_xor_consts degree

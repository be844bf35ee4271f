-- ===== src/Tests/Comparisons.antt =====
-- The comparison of 1, whose bits are shared, and 2.
use linux_copy.Common.{ℕ, zero, suc, List, [], ◌∷◌, Bool, true, false}
use linux_copy.Gfp.{GfpScalar, gfp}
use linux_copy.Network.Joint.{Joint}
use linux_copy.ShareBundle.{ShareBundle}
use linux_copy.Tests.Protocols.{poly}

abbrev one_bits : ℕ → ℕ → Bool
one_bits row zero = true
one_bits row (suc j) = false

abbrev two_bits : ℕ → ℕ → Bool
two_bits row zero = false
two_bits row (suc j) = true

abbrev one_number : ℕ → ℕ
one_number zero = 1
one_number (suc e) = 0

abbrev one_shared : ℕ → GfpScalar → GfpScalar
one_shared e p = poly 1 (one_number e) (λ k. 5) p

abbrev two_public : List GfpScalar
two_public = gfp 0 ∷ gfp 1 ∷ []

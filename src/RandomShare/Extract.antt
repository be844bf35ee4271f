-- ===== src/RandomShare/Extract.antt =====
-- The extraction of random sharings: what the Vandermonde matrix yields is a sharing again.
use linux_copy.Common.{ℕ}
use linux_copy.Gfp.{GfpScalar, ◌⊗◌}
use linux_copy.Poly.Sum.{sum}
use linux_copy.ShareBase.{ShareBase, get_vandermonde}

-- The polynomial of an extracted sharing: the same combination of the input polynomials.
abbrev pub combined : ShareBase → (ℕ → ℕ → GfpScalar → GfpScalar) → ℕ → ℕ → GfpScalar → GfpScalar
combined c inputs i j p = sum c.n_players (λ k. get_vandermonde k i ⊗ inputs k j p)

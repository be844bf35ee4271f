-- ===== src/Matrix/Batch.antt =====
-- `prefixMult` and `batch_inversion` of Math/gfpMatrix.h. A matrix of `n` entries is read by its
-- linear index.
use linux_copy.Common.{ℕ, zero, suc, ◌-◌}
use linux_copy.Gfp.{GfpScalar, ◌⊗◌, inverse}

-- `res(0) = a(0); for(i = 1; ...) res(i) = res(i-1) * a(i);`
unfoldable pub prefix_mult : (ℕ → GfpScalar) → ℕ → GfpScalar
prefix_mult a zero = a 0
prefix_mult a (suc i) = prefix_mult a i ⊗ a (suc i)

-- `a_prefix_inv`, written from its last entry down: the entry `steps` below the last of `size`.
unfoldable pub prefix_inv : ℕ → (ℕ → GfpScalar) → ℕ → GfpScalar
prefix_inv size a zero = inverse (prefix_mult a (size - 1))
prefix_inv size a (suc steps) = prefix_inv size a steps ⊗ a (size - 1 - steps)

unfoldable pub batch_inversion : ℕ → (ℕ → GfpScalar) → ℕ → GfpScalar
batch_inversion size a zero = prefix_inv size a (size - 1)
batch_inversion size a (suc i) = prefix_mult a i ⊗ prefix_inv size a (size - 1 - suc i)

-- ===== src/Matrix.antt =====
-- Math/gfpMatrix.h: bit decomposition, batch inversion, and the packing of matrices into streams.
pub mod Batch
pub mod Bits
pub mod Pack
pub mod Table

-- ===== src/Poly.antt =====
-- Sums over `gfpScalar` (the entries of Eigen's dot and matrix products), and polynomial functions:
-- the mathematics that secret sharing rests on.
pub mod Sum
pub mod Eval
pub mod Lagrange
pub mod Product

-- ===== src/Lib.antt =====
-- hmmpc (Shamir-secret-sharing-template/): Shamir secret sharing over the field of 2^31 - 1 elements,
-- and the protocols that a group of parties runs on shares.
--
-- The program. `Math/` is the arithmetic: field elements on machine words (gfpScalar.h), matrices of
-- them with their packing into streams (gfpMatrix.h), and tables of polynomials (constMatrix.h).
-- `Protocols/` is built on it: ShareBase holds the parameters that all sharings have in common, the
-- Vandermonde matrices and the Lagrange vectors; Share is one party's share of a secret, with the
-- methods that input, reveal, multiply and truncate; ShareBundle is a matrix of shares, whose
-- protocols give each party a block of rows to reveal and to deal; RandomShare keeps queues of sharings that were
-- generated before they are needed; PhaseConfig switches between the offline phase, in which they are
-- generated, and the online phase, and counts what each costs. A method is run by all parties at the
-- same time, each on its own state, and they meet only in their messages.
--
-- The files.
-- Common: helpers. Booleans and numbers (Common/Tests), lists (Common/Lists), bits (Common/Bits), the
--   integers (Common/Int), remainders (Common/Modular).
-- Scalar: Math/gfpScalar.h on words. Every operation is the function of that name on numbers below
--   2 ^ 32 with its wrap-around; Scalar/Arith, Scalar/Inverse and Scalar/Fixed are about them.
-- Gfp: the class gfpScalar, whose values are below the prime, with its operators; the field's laws
--   (Gfp/Ring, Gfp/Inverse), pow (Gfp/Power), sqrt and rsqrt (Gfp/Sqrt).
-- Poly: sums, polynomials and interpolation, which the code does not name.
-- Matrix: Math/gfpMatrix.h. Matrix/Pack has the packing functions, Matrix/Batch batch_inversion,
--   Matrix/Bits decompose_bits, with bits_coeff of Protocols/Share.cpp.
-- ConstMatrix: Math/constMatrix.h.
-- Stream: Tools/octetStream.h, which is not in the repository, as an interface with laws, and a list
--   as an instance.
-- Network: Networking/Player.h, which is not in the repository. A party's program is the tree of its
--   messages (Network); Runs says which messages it exchanged and what it returned (Network/Run), and
--   Delivered that what each party received is what the others sent to it, in order.
-- ShareBase: ShareBase of Protocols/Share.cpp. The static members are a record; `get_relative` of the
--   player and `positive_modulo` of Tools/ are fields of it, and IsValid and IsRevealed say what the
--   protocols rely on.
-- Share: Share and DoubleShare of Protocols/Share.cpp, a function for each method, which returns the
--   party's new state. Share/Collect and Share/Reveal are about `reveal`, Share/Input about
--   `input_from_party`; Share/Prg has the methods that use the agreed generator, Share/Reduce the degree reduction and the truncations.
-- ShareBundle: Protocols/ShareBundle.h and .cpp, class ShareBundle: a matrix of shares of one degree.
--   ShareBundle/Block has the partition of the rows among the parties and the dispersed reveals,
--   ShareBundle/Prg the inputs and those with the agreed generator, ShareBundle/Reveal the reveals,
--   ShareBundle/Reduce the degree reduction and the truncations, ShareBundle/Mult the
--   multiplications of unbounded fan-in and evalFunc. Network/Joint puts joint runs together as the
--   programs are.
-- Bit: Protocols/Bit.h and .cpp, class BitBundle: the gates on shared bits, and the comparisons.
-- BeaverTriple: Protocols/BeaverTriper.h, and reduce_degree_1stLayer of Protocols/ShareBundle.cpp.
-- RandomShare: Protocols/RandomShare.h and .cpp, the queues and what is computed of the inputs.
-- PhaseConfig: Protocols/PhaseConfig.h and .cpp. A call of a generator is a Request.
-- Tests: the theorems at concrete inputs.
--
-- Conventions. The build is the default one, `PR_31`, without `ZERO_OFFLINE`. A failed assertion is
-- `none`, or `abort` in a program; the assertions of the matrix library on sizes and indices count as
-- such. What a method draws from a generator or reads from a file is an argument. A matrix is read as
-- the function of its indices where only its entries matter. The loop of `pow` has the exponent as fuel
-- and the loop of `decompose_bits` the word, which are enough since each round halves them;
-- `extend_gcd` recurses on the accessibility of its second argument.
--
-- Not modelled: the build `PR_61`, the bit operators and the conversions from and to double of
-- gfpScalar.h, the reshaping functions of gfpMatrix.h, the input phases of RandomShare, of
-- ShareBundle the two-layer multiplication with several factors, random, the bit extraction, what
-- compares and maximises with it, and DoubleShareBundle but for what is taken from the queues. The
-- templates with packed secrets, turbopack and shamir are other programs, in part copies of other
-- projects.
pub mod Common
pub mod Scalar
pub mod Gfp
pub mod Poly
pub mod Stream
pub mod Matrix
pub mod ConstMatrix
pub mod ShareBase
pub mod Network
pub mod Share
pub mod RandomShare
pub mod PhaseConfig
pub mod ShareBundle
pub mod BeaverTriple
pub mod Bit
pub mod Tests

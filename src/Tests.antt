-- ===== src/Tests.antt =====
-- Concrete inputs, and the theorems applied to them.
pub mod Numbers
pub mod Sharings
pub mod Protocols
pub mod Phases
pub mod Inputs
pub mod Bundles
pub mod Triples
pub mod Comparisons
use linux_copy.Common.{ℕ, ◌+◌, ◌-◌, ◌%◌, leb, if◌then◌else◌, refl, arith}
use linux_copy.ShareBase.{ShareBase}
use linux_copy.ShareBase.Reconstruct.{IsValid}

-- Three parties with threshold 1, the party 0 being Pking.
abbrev pub three_parties : ShareBase
three_parties = record {
  n_players = 3;
  threshold = 1;
  pking = 0;
  my_num = 0;
  get_relative = λ i j. if leb j i then i - j else i + 3 - j;
  positive_modulo = λ a n. a % n;
}

pub three_parties-IsValid : IsValid three_parties
three_parties-IsValid = record {
  modulo = λ a. refl;
  some_player = omega arith;
  few_players = omega arith;
}

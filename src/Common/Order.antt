-- ===== src/Common/Order.antt =====
-- Well-founded recursion on `<` of the native numbers.
use Prim.Native.Nat.{ℕ, zero, suc, ◌<◌}
use mathlib.Core.WellFounded.{Acc, WellFounded}
use native.Mathlib.Omega.{arith}

acc_bounded : (bound n : ℕ) → n < bound → Acc ◌<◌ n
acc_bounded zero n h = elim h [ ]
acc_bounded (suc bound) n h = Acc.intro n (λ m below. acc_bounded bound m (omega arith))

unfoldable pub lt_acc : (n : ℕ) → Acc ◌<◌ n
unfolding acc_bounded
lt_acc n = acc_bounded (suc n) n (omega arith)

unfoldable pub lt_wf : WellFounded ◌<◌
unfolding lt_acc
lt_wf = record { apply = lt_acc }

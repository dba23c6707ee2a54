-- ===== src/Base/Order.antt =====
-- `<` on the native numbers is well founded.
use Prim.Native.Nat.{ℕ, zero, suc, ◌<◌}
use mathlib.Core.WellFounded.{Acc, WellFounded}
use native.Mathlib.Omega.{arith}

acc_lt : (bound n : ℕ) → n < bound → Acc ◌<◌ n
acc_lt zero n h = absurd (omega arith)
acc_lt (suc bound) n h = Acc.intro n (λ m below. acc_lt bound m (omega arith))

pub lt_wf : WellFounded ◌<◌
lt_wf = record { apply = λ n. acc_lt (suc n) n (omega arith) }

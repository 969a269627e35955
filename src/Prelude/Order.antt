-- ===== src/Prelude/Order.antt =====
-- `<` on the native numbers is well founded.
use mathlib.Core.WellFounded.{Acc, WellFounded}
use go_util.Prelude.{ℕ, zero, suc, ◌<◌, arith}

acc_below : (bound n : ℕ) → n < bound → Acc ◌<◌ n
acc_below zero n h = absurd (omega arith)
acc_below (suc bound) n h = Acc.intro n (λ m hm. acc_below bound m (omega arith))

pub lt_wf : WellFounded ◌<◌
lt_wf = record { apply = λ n. acc_below (suc n) n (omega arith) }

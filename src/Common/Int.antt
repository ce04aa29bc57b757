-- ===== src/Common/Int.antt =====
-- Python's int, where the program uses negative numbers (exit codes, signals).
use mathlib.Core.Bool.{Bool, true, false}
use Prim.Native.Nat.{ℕ}
use smart_sim.Common.Tests.{◌==◌}

-- `negsuc n` is -(n + 1).
pub data ℤ : Type 0 where
  pos : ℕ → ℤ
  negsuc : ℕ → ℤ

-- bool(n)
unfoldable pub is_nonzero : ℤ → Bool
is_nonzero (pos n) = elim (n == 0) [ true ↦ false | false ↦ true ]
is_nonzero (negsuc n) = true

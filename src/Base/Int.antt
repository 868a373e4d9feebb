-- ===== src/Base/Int.antt =====
-- Signed integers as sign-extended LLVM constants deliver them, and `u64::try_from` of an `i64`.
use Prim.Native.Nat.{ℕ}
use mathlib.Core.Option.{Option, none, some}

-- `negsuc n` is -(n + 1).
pub data ℤ : Type 0 where
  pos : ℕ → ℤ
  negsuc : ℕ → ℤ

unfoldable pub try_from : ℤ → Option ℕ
try_from (pos n) = some n
try_from (negsuc n) = none

-- ===== src/Prelude/Int.antt =====
-- The signed integers that the source uses as exit codes (`i64`): equality and sign only.
use Prim.Native.Nat.{ℕ}
use mathlib.Core.Bool.{Bool, false}
use contextd.Prelude.Tests.{◌==◌}

-- `negsuc n` is -(n + 1).
pub data ℤ : Type 0 where
  pos : ℕ → ℤ
  negsuc : ℕ → ℤ

-- `code == 0`
abbrev pub is_zero : ℤ → Bool
is_zero (pos n) = n == 0
is_zero (negsuc n) = false

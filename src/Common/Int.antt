-- ===== src/Common/Int.antt =====
-- `int` where the source uses a negative value as a mark.
use Prim.Native.Nat.{ℕ}
use mathlib.Core.Bool.{Bool, false}
use irc.Common.Tests.{◌==◌}

-- `negsuc n` is -(n + 1).
pub data ℤ : Type 0 where
  pos : ℕ → ℤ
  negsuc : ℕ → ℤ

abbrev pub int_eq : ℤ → ℤ → Bool
int_eq (pos a) (pos b) = a == b
int_eq (pos a) (negsuc b) = false
int_eq (negsuc a) (pos b) = false
int_eq (negsuc a) (negsuc b) = a == b

-- -1
abbrev pub minus_one : ℤ
minus_one = negsuc 0

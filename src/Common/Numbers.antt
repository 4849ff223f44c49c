-- ===== src/Common/Numbers.antt =====
-- Go's `int` and `time.Duration`, as far as the program compares them with 0.
use Prim.Native.Nat.{ℕ, zero, suc}
use mathlib.Core.Bool.{Bool, true, false}

-- `negsuc n` is -(n + 1).
pub data ℤ : Type 0 where
  pos : ℕ → ℤ
  negsuc : ℕ → ℤ

-- `i > 0`
abbrev pub is_pos : ℤ → Bool
is_pos (pos zero) = false
is_pos (pos (suc n)) = true
is_pos (negsuc n) = false

-- The value of a number that is not negative.
abbrev pub abs_pos : ℤ → ℕ
abs_pos (pos n) = n
abs_pos (negsuc n) = 0

-- ===== src/Prelude/Int.antt =====
-- The `int` of the program: signed integers over the native numbers.
use azh_lid.Prelude.Tests.{ltb, if◌then◌else◌}
use Prim.Native.Nat.{ℕ, ◌-◌, ◌%◌}
use mathlib.Core.Bool.{Bool, true, false}

-- `negsuc n` is -(n + 1).
pub data ℤ : Type 0 where
  pos : ℕ → ℤ
  negsuc : ℕ → ℤ

-- `0 < a`
abbrev pub is_positive : ℤ → Bool
is_positive (pos n) = ltb 0 n
is_positive (negsuc n) = false

-- `a < 0`
abbrev pub is_negative : ℤ → Bool
is_negative (pos n) = false
is_negative (negsuc n) = true

-- The value of an integer that is known not to be negative.
abbrev pub pos_part : ℤ → ℕ
pos_part (pos n) = n
pos_part (negsuc n) = 0

-- The integer of a 32-bit pattern.
abbrev pub signed : ℕ → ℤ
signed n = if ltb n 2147483648 then pos n else negsuc (4294967296 - n - 1)

-- `static_cast<int>` of an unsigned number.
abbrev pub to_int : ℕ → ℤ
to_int n = signed (n % 4294967296)

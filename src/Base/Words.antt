-- ===== src/Base/Words.antt =====
-- Go's fixed-width integers as bit patterns below 2 ^ w, with the wrap-around written out.
-- A signed value is the two's complement reading of its pattern.
use Prim.Native.Nat.{ℕ, ◌+◌, ◌-◌, ◌%◌, ◌^◌}
use mathlib.Core.Bool.{Bool}
use amp_host_go.Base.Tests.{ltb, leb, if◌then◌else◌}

-- `a - b` on int64 and on int32.
abbrev pub sub_int64 : ℕ → ℕ → ℕ
sub_int64 a b = (a + 2 ^ 64 - b) % 2 ^ 64

abbrev pub sub_int32 : ℕ → ℕ → ℕ
sub_int32 a b = (a + 2 ^ 32 - b) % 2 ^ 32

-- The conversion `int(x)` of an int32 sign-extends.
abbrev pub int_of_int32 : ℕ → ℕ
int_of_int32 x = if ltb x (2 ^ 31) then x else x + (2 ^ 64 - 2 ^ 32)

-- The int -1.
abbrev pub minus_one : ℕ
minus_one = 2 ^ 64 - 1

-- `x < 0` on an int.
abbrev pub is_negative : ℕ → Bool
is_negative x = leb (2 ^ 63) x

-- `a > b` on int64: the patterns are compared after the sign bit is flipped.
abbrev pub gt_int64 : ℕ → ℕ → Bool
gt_int64 a b = ltb ((b + 2 ^ 63) % 2 ^ 64) ((a + 2 ^ 63) % 2 ^ 64)

abbrev pub ge_int64 : ℕ → ℕ → Bool
ge_int64 a b = leb ((b + 2 ^ 63) % 2 ^ 64) ((a + 2 ^ 63) % 2 ^ 64)

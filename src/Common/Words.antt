-- ===== src/Common/Words.antt =====
-- A 32-bit signed integer as its bit pattern, a number below 2 ^ 32.
use beaglewing.Common.Booleans.{ltb, leb, if◌then◌else◌}
use mathlib.Core.Bool.{Bool, not, ◌&&◌}
use Prim.Native.Nat.{ℕ, ◌+◌, ◌-◌, ◌/◌, ◌%◌, ◌^◌}

abbrev pub add_i32 : ℕ → ℕ → ℕ
add_i32 a b = (a + b) % 2 ^ 32

abbrev pub sub_i32 : ℕ → ℕ → ℕ
sub_i32 a b = (a + 2 ^ 32 - b) % 2 ^ 32

abbrev pub is_negative : ℕ → Bool
is_negative a = leb (2 ^ 31) a

-- `wrapping_neg`
abbrev pub neg_i32 : ℕ → ℕ
neg_i32 a = (2 ^ 32 - a) % 2 ^ 32

-- `.abs() >= n` for a positive n: the absolute value of the least integer is negative.
abbrev pub abs_ge : ℕ → ℕ → Bool
abs_ge a n = let m = (if is_negative a then neg_i32 a else a) in not (is_negative m) && leb n m

-- division by a positive number, towards zero
abbrev pub div_i32 : ℕ → ℕ → ℕ
div_i32 a n = if is_negative a then neg_i32 (neg_i32 a / n) else a / n

-- `.clamp(-127, 127) as i8`, as the bit pattern of the i8
unfoldable pub clamp_i8 : ℕ → ℕ
clamp_i8 a =
    if is_negative a
    then (if ltb 127 (neg_i32 a) then 129 else 256 - neg_i32 a)
    else if ltb 127 a
    then 127
    else a

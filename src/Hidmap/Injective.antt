-- ===== src/Hidmap/Injective.antt =====
-- The key table loses nothing: a usage determines its key code.
use native.Mathlib.Decide.{dec_lt}
use beaglewing.Hidmap.{Arm, arms, first_match, keycode_to_usage, is_modifier_usage}
use beaglewing.Common.{
  leb, ◌==◌, if◌then◌else◌, Bool-cases, Option-cases, every_below, every_below-lookup, All, ℕ, ◌+◌,
  ◌-◌, ◌≤◌, ◌<◌, ◌≡◌, refl, ◌⊎◌, inl, inr, Bool, true, false, not, ◌&&◌, ◌||◌, Option, none, some,
  List, [], ◌∷◌, arith,
}

-- The table read backwards.
backwards : List Arm → ℕ → Option ℕ
backwards [] usage = none
backwards (a ∷ rest) usage =
    let later = backwards rest usage in
    if leb a.usage usage && leb usage (a.last - a.first + a.usage)
    then some (usage - a.usage + a.first)
    else later

-- a usage that the keyboard report has room for, and never the mark of an empty slot
abbrev is_key_usage : ℕ → Bool
is_key_usage u = (leb 0x04 u && leb u 0x65) || (leb 0xe0 u && leb u 0xe7)

abbrev pub modifier_codes : List ℕ
modifier_codes = 29 ∷ 42 ∷ 54 ∷ 56 ∷ 97 ∷ 100 ∷ 125 ∷ 126 ∷ []

abbrev pub elem : ℕ → List ℕ → Bool
elem c [] = false
elem c (x ∷ xs) = c == x || elem c xs

abbrev same_option : Option ℕ → ℕ → Bool
same_option none c = false
same_option (some d) c = c == d

abbrev iff : Bool → Bool → Bool
iff true b = b
iff false b = not b

-- what the table says of one code
abbrev good_code : ℕ → Option ℕ → Bool
good_code c none = not (elem c modifier_codes)
good_code c (some u) =
    same_option (backwards arms u) c
    && (is_key_usage u && iff (is_modifier_usage u) (elem c modifier_codes))

codes_table : every_below (λ c. good_code c (first_match arms c)) 128 ≡ true
unfolding every_below arms first_match backwards is_modifier_usage
codes_table = refl

first_match-none :
    (table : List Arm) (c : ℕ)
    → All (λ a. a.last < 128) table
    → 128 ≤ c
    → first_match table c ≡ none
unfolding first_match
first_match-none [] c h k = refl
first_match-none (a ∷ rest) c (h, hs) k = ground (arith, first_match-none rest c hs k)

arms_below : All (λ a. a.last < 128) arms
unfolding arms
arms_below = omega arith

-- What the table says of a code that it maps.
good : (c u : ℕ) → keycode_to_usage c ≡ some u → good_code c (some u) ≡ true
good c u e = elim (dec_lt c 128) [
  | yes h ↦
      rw mapped at (every_below-lookup (λ c. good_code c (first_match arms c)) 128 c h codes_table)
  | no h ↦ cc (mapped, first_match-none arms c arms_below (omega arith))
]
  where
    mapped : first_match arms c ≡ some u
    mapped = unfold keycode_to_usage in e

-- Two codes with the same usage are one code.
pub keycode_to_usage-injective :
    (c d u : ℕ) → keycode_to_usage c ≡ some u → keycode_to_usage d ≡ some u → c ≡ d
keycode_to_usage-injective c d u p q = elim (Option-cases (backwards arms u)) [
  | inl e ↦ absurd (ground (arith, good c u p, e))
  | inr (b, e) ↦ ground (arith, good c u p, good d u q, e)
]

-- Every usage of the table is a key usage 0x04..0x65 or a modifier 0xe0..0xe7, so that it is never
-- 0, the mark of an empty slot; and it is a modifier exactly for the eight modifier keys.
pub keycode_to_usage_range :
    (c u : ℕ)
    → keycode_to_usage c ≡ some u
    → (((0x04 ≤ u) × (u ≤ 0x65)) ⊎ ((0xe0 ≤ u) × (u ≤ 0xe7)))
      × (is_modifier_usage u ≡ elem c modifier_codes)
keycode_to_usage_range c u e = (range, modifiers)
  where
    range : ((0x04 ≤ u) × (u ≤ 0x65)) ⊎ ((0xe0 ≤ u) × (u ≤ 0xe7))
    range = ground (arith, good c u e)

    modifiers : is_modifier_usage u ≡ elem c modifier_codes
    modifiers = elim (Bool-cases (is_modifier_usage u)) [
      | inl h ↦ ground (arith, good c u e, h)
      | inr h ↦ ground (arith, good c u e, h)
    ]

-- ===== src/Bridge/Hid/Held.antt =====
-- Which keys are held down, and how `key_event` changes that.
use beaglewing.Bridge.Hid.Bits.{bit_of, bit_of-set, bit_of-clear}
use beaglewing.Bridge.Hid.{
  press, write_report, key_event, Bool, true, is_modifier, Report, Hid, contains, free_slot,
  clear_key,
}
use beaglewing.Common.{
  ◌==◌, if◌then◌else◌, Bool-cases, Option-cases, set, ℕ, ◌-◌, ◌≤◌, ◌<◌, ◌≡◌, ◌∙◌, ◌≢◌, inl, inr,
  false, not, ◌&&◌, ◌||◌, none, some, List, [], ◌∷◌, arith,
}

contains-set_free :
    (ks : List ℕ) (usage u : ℕ) {i : ℕ}
    → free_slot ks ≡ some i
    → u ≢ 0
    → contains (set ks i usage) u ≡ (usage == u || contains ks u)
unfolding contains free_slot
contains-set_free [] usage u e h = absurd (cc)
contains-set_free (k ∷ ks) usage u e h = elim (Option-cases (free_slot ks)) [
  | inl full ↦ ground arith
  | inr (j, f) ↦ ground (arith, contains-set_free ks usage u f h)
]

contains-clear_key :
    (ks : List ℕ) (usage u : ℕ)
    → u ≢ 0
    → contains (clear_key ks usage) u ≡ (not (usage == u) && contains ks u)
unfolding contains clear_key
contains-clear_key [] usage u h = ground arith
contains-clear_key (k ∷ ks) usage u h = ground (arith, contains-clear_key ks usage u h)

-- The key is down in the device state: its modifier bit is set, or a slot holds it.
unfoldable pub holds : Hid → ℕ → Bool
holds hid u = if is_modifier u then bit_of hid.modifiers (u - 0xe0) else contains hid.keys u

-- There is room to press the key: modifiers have bits of their own, other keys need a free slot.
unfoldable pub has_room : Hid → ℕ → Bool
has_room hid u = is_modifier u || elim (free_slot hid.keys) [ none ↦ false | some _ ↦ true ]

pub is_modifier-bits : (u : ℕ) → is_modifier u ≡ true → (0xe0 ≤ u) × (u - 0xe0 < 8)
is_modifier-bits u h = ground arith

module _ (accepts : List Report → Report → Bool) (hid : Hid) (usage u : ℕ) where
  modifier-holds :
      (down : Bool)
      → hid.modifiers < 256
      → is_modifier usage ≡ true
      → holds (key_event accepts hid usage down) u ≡ (if usage == u then down else holds hid u)
  unfolding key_event write_report holds
  modifier-holds down hm h = elim (Bool-cases (is_modifier u)) [
    | inl both ↦
        let a = is_modifier-bits usage h in
        let b = is_modifier-bits u both in
        ground (
          arith,
          bit_of-set hid.modifiers (usage - 0xe0) (u - 0xe0) hm a.1 b.1,
          bit_of-clear hid.modifiers (usage - 0xe0) (u - 0xe0) hm a.1 b.1,
        )
    | inr other ↦ ground arith
  ]

  other-holds :
      (down : Bool)
      → is_modifier usage ≡ false
      → usage ≢ 0
      → u ≢ 0
      → holds (key_event accepts hid usage down) u
        ≡ (if usage == u then down && (holds hid u || has_room hid u) else holds hid u)
  unfolding key_event press write_report holds has_room
  other-holds down h hu hv = elim (Option-cases (free_slot hid.keys)) [
    | inl full ↦ rw (full, press) (ground (arith, contains-clear_key hid.keys usage u hv))
    | inr (i, free) ↦
        rw (free, press)
          (ground (
            arith,
            contains-clear_key hid.keys usage u hv,
            contains-set_free hid.keys usage u free hv,
          ))
  ]

  -- A key event, on a device whose modifiers are a byte, changes whether its own key is held and
  -- leaves all other keys as they were: after a release the key is up, and after a press it is down
  -- if it was down before or if there was room for it (always for a modifier, else a free slot).
  -- Usage 0 marks an empty slot and is no key.
  pub key_event-holds :
      (down : Bool)
      → hid.modifiers < 256
      → usage ≢ 0
      → u ≢ 0
      → holds (key_event accepts hid usage down) u
        ≡ (if usage == u then down && (holds hid u || has_room hid u) else holds hid u)
  key_event-holds down hm hu hv = elim (Bool-cases (is_modifier usage)) [
    | inl m ↦ modifier-holds down hm m ∙ unfold has_room in ground (arith, Bool-cases (holds hid u))
    | inr o ↦ other-holds down o hu hv
  ]

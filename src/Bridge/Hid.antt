-- ===== src/Bridge/Hid.antt =====
-- pi/bridge/src/main.rs: `Hid`. The state holds the reports that it tried to write, oldest first, in
-- place of the two device files; the timing statistics `kbd_stats`, which only feed the log, are
-- left out. Whether the operating system takes a report after these attempts is the section's
-- parameter; that it refuses one is only noted in `hid_ok`.
pub mod Bits
pub mod Held
pub mod Valid
use beaglewing.Bridge.Defs.{pointer_center}
use beaglewing.Common.Bytes.{Bytes}
use beaglewing.Common.{
  leb, ◌==◌, if◌then◌else◌, set, ℕ, suc, ◌+◌, ◌-◌, ◌/◌, ◌%◌, ◌^◌, bit_and, bit_or, Bool, true,
  false, ◌&&◌, ◌||◌, Option, none, some, List, [], ◌∷◌, ◌++◌,
}

pub data Which : Type 0 where
  kbd ptr : Which

pub record Report : Type 0 where
  pub which : Which
  pub content : Bytes

pub record Hid : Type 0 where
  pub modifiers : ℕ
  pub keys : List ℕ
  pub buttons : ℕ
  pub x : ℕ
  pub y : ℕ
  pub hid_ok : Bool
  pub reports : List Report

abbrev pub no_keys : List ℕ
no_keys = 0 ∷ 0 ∷ 0 ∷ 0 ∷ 0 ∷ 0 ∷ []

-- `Hid::open`, once both devices are open
abbrev pub opened : Hid
opened = record {
  modifiers = 0;
  keys = no_keys;
  buttons = 0;
  x = pointer_center;
  y = pointer_center;
  hid_ok = true;
  reports = [];
}

abbrev pub is_modifier : ℕ → Bool
is_modifier usage = leb 0xe0 usage && leb usage 0xe7

-- `keys.contains(&usage)`
unfoldable pub contains : List ℕ → ℕ → Bool
contains [] u = false
contains (k ∷ ks) u = k == u || contains ks u

-- `keys.iter().position(|&k| k == 0)`
unfoldable pub free_slot : List ℕ → Option ℕ
free_slot [] = none
free_slot (k ∷ ks) =
    let later = free_slot ks in
    if k == 0 then some 0 else elim later [ none ↦ none | some i ↦ some (suc i) ]

-- every slot that holds `usage` becomes 0
unfoldable pub clear_key : List ℕ → ℕ → List ℕ
clear_key [] u = []
clear_key (k ∷ ks) u = (if k == u then 0 else k) ∷ clear_key ks u

-- `keys.iter().filter(|&&k| k != 0).count()`
unfoldable pub held_count : List ℕ → ℕ
held_count [] = 0
held_count (k ∷ ks) = (if k == 0 then 0 else 1) + held_count ks

abbrev pub held_key_count : Hid → ℕ
held_key_count hid = held_count hid.keys % 256

abbrev pub kbd_report : Hid → Report
kbd_report hid = record { which = kbd; content = hid.modifiers ∷ 0 ∷ hid.keys }

-- Positions are halved to the 15 bits of the descriptor. `wheel` is an i8 as its bit pattern.
abbrev pub ptr_report : Hid → ℕ → Report
ptr_report hid wheel = record {
  which = ptr;
  content =
      hid.buttons
      ∷ hid.x / 2 % 256
      ∷ hid.x / 2 / 256
      ∷ hid.y / 2 % 256
      ∷ hid.y / 2 / 256
      ∷ wheel
      ∷ [];
}

module _ (accepts : List Report → Report → Bool) where
  unfoldable pub write_report : Hid → Report → Hid
  write_report hid r = record hid {
    hid_ok = accepts hid.reports r;
    reports = hid.reports ++ (r ∷ []);
  }

  unfoldable pub flush_kbd : Hid → Hid
  unfolding write_report
  flush_kbd hid = write_report hid (kbd_report hid)

  unfoldable pub flush_ptr : Hid → ℕ → Hid
  unfolding write_report
  flush_ptr hid wheel = write_report hid (ptr_report hid wheel)

  -- A key that goes down takes the first free slot; with none free it is dropped.
  press : Hid → ℕ → Option ℕ → Hid
  unfolding flush_kbd
  press hid usage none = hid
  press hid usage (some slot) = flush_kbd (record hid { keys = set hid.keys slot usage })

  unfoldable pub key_event : Hid → ℕ → Bool → Hid
  unfolding press flush_kbd
  key_event hid usage down =
      if is_modifier usage
      then (let bit = 2 ^ (usage - 0xe0) in
          flush_kbd (record hid {
            modifiers =
                if down then bit_or hid.modifiers bit else bit_and hid.modifiers (255 - bit);
          }))
      else if down
      then (if contains hid.keys usage then hid else press hid usage (free_slot hid.keys))
      else flush_kbd (record hid { keys = clear_key hid.keys usage })

  unfoldable pub release_all : Hid → Hid
  unfolding flush_kbd flush_ptr
  release_all hid =
      flush_ptr (flush_kbd (record hid { modifiers = 0; keys = no_keys; buttons = 0 })) 0

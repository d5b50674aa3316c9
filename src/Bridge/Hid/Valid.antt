-- ===== src/Bridge/Hid/Valid.antt =====
-- The device state stays well formed, and so does every report that it tries to write.
use beaglewing.Bridge.Hid.Bits.{set_bit-lt, clear_bit-lt}
use beaglewing.Bridge.Hid.Held.{is_modifier-bits}
use beaglewing.Bridge.Hid.{
  Which, kbd, ptr, Report, Hid, no_keys, is_modifier, contains, free_slot, clear_key, kbd_report,
  ptr_report, write_report, flush_kbd, flush_ptr, press, key_event, release_all,
}
use beaglewing.Common.Bytes.{Bytes, IsByte, IsU16}
use beaglewing.Common.{
  if◌then◌else◌, if-cases, length, All, get_or, set, All-append, ℕ, zero, suc, ◌-◌, ◌^◌, ◌<◌,
  bit_and, bit_or, ◌≡◌, refl, ap, ◌∙◌, Bool, Option, none, some, List, [], ◌∷◌, arith,
}

-- The layout of a report: a keyboard report has eight bytes; a pointer report has six, with three
-- buttons and positions of 15 bits. The descriptors also bound the key codes (0 to 0x65) and the wheel
-- (-127 to 127), which the program does not check.
abbrev pub Fits : Which → Bytes → Type 0
Fits kbd content = (length content ≡ 8) × All IsByte content
Fits ptr content =
    (length content ≡ 6)
    × All IsByte content
    × (get_or content 0 0 < 8)
    × (get_or content 2 0 < 128)
    × (get_or content 4 0 < 128)

abbrev pub IsReport : Report → Type 0
IsReport r = Fits r.which r.content

pub record IsValid (hid : Hid) : Type 0 where
  pub modifier_byte : hid.modifiers < 256
  pub six_slots : length hid.keys ≡ 6
  pub key_bytes : All IsByte hid.keys
  pub three_buttons : hid.buttons < 8
  pub x_range : IsU16 hid.x
  pub y_range : IsU16 hid.y
  pub well_formed : All IsReport hid.reports

module _ (accepts : List Report → Report → Bool) {hid : Hid} (v : IsValid hid) where
  write_report-IsValid : (r : Report) → IsReport r → IsValid (write_report accepts hid r)
  unfolding write_report
  write_report-IsValid r h = record {
    modifier_byte = v.modifier_byte;
    six_slots = v.six_slots;
    key_bytes = v.key_bytes;
    three_buttons = v.three_buttons;
    x_range = v.x_range;
    y_range = v.y_range;
    well_formed = All-append IsReport hid.reports (r ∷ []) v.well_formed (h, tt);
  }

  pub flush_kbd-IsValid : IsValid (flush_kbd accepts hid)
  unfolding flush_kbd
  flush_kbd-IsValid =
      write_report-IsValid (kbd_report hid)
        (omega (arith, v.six_slots), (v.modifier_byte, (omega arith, v.key_bytes)))

  pub flush_ptr-IsValid : (wheel : ℕ) → IsByte wheel → IsValid (flush_ptr accepts hid wheel)
  unfolding flush_ptr
  flush_ptr-IsValid wheel h = write_report-IsValid (ptr_report hid wheel) (omega (arith, v))

All-set : (ks : List ℕ) (i u : ℕ) → IsByte u → All IsByte ks → All IsByte (set ks i u)
All-set [] i u h a = tt
All-set (k ∷ ks) zero u h a = (h, a.1)
All-set (k ∷ ks) (suc i) u h a = (a.0, All-set ks i u h a.1)

length-set : (ks : List ℕ) (i u : ℕ) → length (set ks i u) ≡ length ks
length-set [] i u = refl
length-set (k ∷ ks) zero u = refl
length-set (k ∷ ks) (suc i) u = ap suc (length-set ks i u)

All-clear_key : (ks : List ℕ) (u : ℕ) → All IsByte ks → All IsByte (clear_key ks u)
unfolding clear_key
All-clear_key [] u a = tt
All-clear_key (k ∷ ks) u a = (ground arith, All-clear_key ks u a.1)

length-clear_key : (ks : List ℕ) (u : ℕ) → length (clear_key ks u) ≡ length ks
unfolding clear_key
length-clear_key [] u = refl
length-clear_key (k ∷ ks) u = ap suc (length-clear_key ks u)

module _ (accepts : List Report → Report → Bool) {hid : Hid} (v : IsValid hid) where
  -- New keys and modifiers.
  pub keyed-IsValid :
      (modifiers : ℕ) (keys : List ℕ)
      → IsByte modifiers
      → length keys ≡ 6
      → All IsByte keys
      → IsValid (flush_kbd accepts (record hid { modifiers = modifiers; keys = keys }))
  keyed-IsValid modifiers keys hm hk ha = flush_kbd-IsValid accepts (record {
    modifier_byte = hm;
    six_slots = hk;
    key_bytes = ha;
    three_buttons = v.three_buttons;
    x_range = v.x_range;
    y_range = v.y_range;
    well_formed = v.well_formed;
  })

  press-IsValid :
      (usage : ℕ) (slot : Option ℕ) → IsByte usage → IsValid (press accepts hid usage slot)
  unfolding press
  press-IsValid usage none h = v
  press-IsValid usage (some i) h =
      keyed-IsValid hid.modifiers (set hid.keys i usage) v.modifier_byte
        (length-set hid.keys i usage ∙ v.six_slots) (All-set hid.keys i usage h v.key_bytes)

  pub key_event-IsValid :
      (usage : ℕ) (down : Bool) → IsByte usage → IsValid (key_event accepts hid usage down)
  unfolding key_event
  key_event-IsValid usage down h =
      if-cases IsValid (is_modifier usage)
        (λ m.
          keyed-IsValid
            (if down
              then bit_or hid.modifiers (2 ^ (usage - 0xe0))
              else bit_and hid.modifiers (255 - 2 ^ (usage - 0xe0)))
            hid.keys
            (if-cases IsByte down
              (λ _.
                set_bit-lt hid.modifiers (usage - 0xe0) v.modifier_byte
                  (is_modifier-bits usage m).1)
              (λ _.
                clear_bit-lt hid.modifiers (usage - 0xe0) v.modifier_byte
                  (is_modifier-bits usage m).1))
            v.six_slots v.key_bytes)
        (λ _.
          if-cases IsValid down
            (λ _.
              if-cases IsValid (contains hid.keys usage) (λ _. v)
                (λ _. press-IsValid usage (free_slot hid.keys) h))
            (λ _.
              keyed-IsValid hid.modifiers (clear_key hid.keys usage) v.modifier_byte
                (length-clear_key hid.keys usage ∙ v.six_slots)
                (All-clear_key hid.keys usage v.key_bytes)))

  -- Buttons and position may be set to anything in range before a pointer report.
  pub pointed-IsValid :
      (buttons x y wheel : ℕ)
      → buttons < 8
      → IsU16 x
      → IsU16 y
      → IsByte wheel
      → IsValid (flush_ptr accepts (record hid { buttons = buttons; x = x; y = y }) wheel)
  pointed-IsValid buttons x y wheel hb hx hy hw =
      let ready : IsValid (record hid { buttons = buttons; x = x; y = y }) = record {
        modifier_byte = v.modifier_byte;
        six_slots = v.six_slots;
        key_bytes = v.key_bytes;
        three_buttons = hb;
        x_range = hx;
        y_range = hy;
        well_formed = v.well_formed;
      } in
      flush_ptr-IsValid accepts ready wheel hw

module _ (accepts : List Report → Report → Bool) {hid : Hid} (v : IsValid hid) where
  pub release_all-IsValid : IsValid (release_all accepts hid)
  unfolding release_all
  release_all-IsValid =
      flush_ptr-IsValid accepts (flush_kbd-IsValid accepts cleared) 0 (omega arith)
    where
      cleared : IsValid (record hid { modifiers = 0; keys = no_keys; buttons = 0 })
      cleared = record {
        modifier_byte = omega arith;
        six_slots = refl;
        key_bytes = omega arith;
        three_buttons = omega arith;
        x_range = v.x_range;
        y_range = v.y_range;
        well_formed = v.well_formed;
      }

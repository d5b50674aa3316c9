-- ===== src/Tests/Cursor.antt =====
-- Runs of linux/input-router/src/hidmap.rs and geometry.rs, and the theorems about them at
-- concrete data.
use beaglewing.Geometry.Inside.{AreUsable, IsMoved, canonical_range}
use beaglewing.Geometry.Moves.{apply_delta-IsMoved, enter_remote-force_local}
use beaglewing.Geometry.Scalar.{Scalar, IsOrdered}
use beaglewing.Geometry.Space.{
  Space, Crossing, local, right, to_remote, to_local, new_space, apply_delta, canonical,
  enter_remote, force_local, remote_x, local_x,
}
use beaglewing.Hidmap.{keycode_to_usage, is_modifier_usage, arms, first_match}
use beaglewing.Hidmap.Injective.{
  keycode_to_usage-injective, keycode_to_usage_range, modifier_codes, elem,
}
use beaglewing.Common.{
  ltb, leb, ◌==◌, ℕ, ◌+◌, ◌-◌, ◌*◌, ◌/◌, ◌%◌, ◌^◌, ◌≤◌, ◌<◌, min, ◌≡◌, refl, ◌⊎◌, some, arith,
}

-- Natural numbers in place of f64.
abbrev pub whole : Scalar
whole = record {
  F = ℕ;
  add = λ a b. a + b;
  sub = λ a b. a - b;
  mul = λ a b. a * b;
  div = λ a b. a / b;
  lt = ltb;
  le = leb;
  zero_f = 0;
  one = 1;
  two = 2;
  canonical_max = 65535;
  fifteen = 15;
  eq = λ a b. a == b;
  of_u32 = λ a. a;
  of_i32 = λ a. a;
  trunc_i32 = λ a. a % 2 ^ 32;
  round_u16 = λ a. min a 65535;
}

pub whole-IsOrdered : IsOrdered whole
whole-IsOrdered = record {
  lt_irrefl = λ a. ground arith;
  le-not_gt = λ a b h. ground arith;
  canonical_ordered = refl;
  round_range = λ a. omega arith;
}

abbrev pub desk : Space whole
desk =
    new_space whole (record { width = 1920; height = 1080 }) (record { width = 1280; height = 720 })
      right

pub desk-AreUsable : AreUsable whole whole-IsOrdered desk
unfolding new_space
desk-AreUsable = record {
  local_usable = record { wide = refl; high = refl };
  remote_usable = record { wide = refl; high = refl };
}

-- A motion past the right edge.
apply_delta-IsMoved_example :
    (s' : Space whole) × (c : Crossing) × (apply_delta whole desk 1000 2000 ≡ some (s', c))
    × IsMoved whole whole-IsOrdered desk c s'
apply_delta-IsMoved_example =
    apply_delta-IsMoved whole whole-IsOrdered desk 1000 2000 desk-AreUsable

enter_remote-force_local_run :
    (there back : Space whole) × (enter_remote whole desk 600 ≡ some there)
    × (force_local whole there ≡ some back)
    × IsMoved whole whole-IsOrdered (record desk { target = local }) to_remote there
    × IsMoved whole whole-IsOrdered there to_local back
    × (there.x ≡ remote_x whole desk.edge desk.remote_screen)
    × (back.x ≡ local_x whole desk.edge desk.local_screen)
    × (force_local whole back ≡ some back)
enter_remote-force_local_run =
    enter_remote-force_local whole whole-IsOrdered desk 600 desk-AreUsable

canonical_range_run :
    (cx cy : ℕ) × (canonical whole desk ≡ some (cx, cy)) × (cx < 65536) × (cy < 65536)
canonical_range_run = canonical_range whole whole-IsOrdered desk

abbrev code_a : ℕ
code_a = 30

a_key : keycode_to_usage 30 ≡ some 4
unfolding keycode_to_usage first_match arms
a_key = refl

keycode_to_usage-injective_example : code_a ≡ code_a
keycode_to_usage-injective_example = keycode_to_usage-injective code_a code_a 4 a_key a_key

keycode_to_usage_range_run :
    (((0x04 ≤ 4) × (4 ≤ 0x65)) ⊎ ((0xe0 ≤ 4) × (4 ≤ 0xe7)))
    × (is_modifier_usage 4 ≡ elem 30 modifier_codes)
keycode_to_usage_range_run = keycode_to_usage_range 30 4 a_key

-- ===== src/Router/Emergency.antt =====
-- linux/input-router/src/router.rs: `Emergency`, the hotkey LCtrl+LAlt+Backslash.
use beaglewing.Common.{◌==◌, if◌then◌else◌, ℕ, Bool, false, ◌&&◌}

pub record Emergency : Type 0 where
  pub ctrl : Bool
  pub alt : Bool
  pub backslash : Bool

abbrev pub released : Emergency
released = record { ctrl = false; alt = false; backslash = false }

-- the new state, and whether the full combination is held
unfoldable pub update : Emergency → ℕ → Bool → Emergency × Bool
update e usage pressed =
    let e' : Emergency =
      (if usage == 0xe0
        then record e { ctrl = pressed }
        else if usage == 0xe2
        then record e { alt = pressed }
        else if usage == 0x31
        then record e { backslash = pressed }
        else e) in
    (e', e'.ctrl && e'.alt && e'.backslash)

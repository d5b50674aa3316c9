-- ===== src/Router/Hotkey.antt =====
-- linux/input-router/src/router.rs: what the emergency hotkey watches, over any key events.
use beaglewing.Router.Emergency.{Emergency, released, update}
use beaglewing.Common.{
  ◌==◌, if◌then◌else◌, ℕ, ◌≡◌, refl, ◌∙◌, Bool, false, ◌&&◌, List, [], ◌∷◌, ◌++◌, arith,
}

-- The state after these key events, each a usage and whether the key went down.
unfoldable pub update_all : Emergency → List (ℕ × Bool) → Emergency
update_all e [] = e
update_all e ((usage, pressed) ∷ later) = update_all (update e usage pressed).0 later

-- Whether the last event of the key was a press; `before` stands for a key with no event.
unfoldable pub is_down : ℕ → Bool → List (ℕ × Bool) → Bool
is_down key before [] = before
is_down key before ((usage, pressed) ∷ later) =
    is_down key (if usage == key then pressed else before) later

update_all-is_down :
    (e : Emergency) (events : List (ℕ × Bool))
    → update_all e events ≡ record {
      ctrl = is_down 0xe0 e.ctrl events;
      alt = is_down 0xe2 e.alt events;
      backslash = is_down 0x31 e.backslash events;
    }
unfolding update_all is_down update
update_all-is_down e [] = refl
update_all-is_down e ((usage, pressed) ∷ later) =
    update_all-is_down (update e usage pressed).0 later ∙ ground arith

is_down-append :
    (key : ℕ) (before : Bool) (events : List (ℕ × Bool)) (usage : ℕ) (pressed : Bool)
    → is_down key before (events ++ ((usage, pressed) ∷ []))
      ≡ (if usage == key then pressed else is_down key before events)
unfolding is_down
is_down-append key before [] usage pressed = refl
is_down-append key before ((u, p) ∷ later) usage pressed =
    is_down-append key (if u == key then p else before) later usage pressed

abbrev pub all_down : List (ℕ × Bool) → Bool
all_down events =
    is_down 0xe0 false events && (is_down 0xe2 false events && is_down 0x31 false events)

-- After any key events since the last reset, the next one reports the emergency combination
-- exactly when the last event of each of LCtrl, LAlt and Backslash, this one included, is a press.
pub update-all_down :
    (events : List (ℕ × Bool)) (usage : ℕ) (pressed : Bool)
    → (update (update_all released events) usage pressed).1
      ≡ all_down (events ++ ((usage, pressed) ∷ []))
unfolding update
update-all_down events usage pressed =
    rw
      (
        update_all-is_down released events,
        is_down-append 0xe0 false events usage pressed,
        is_down-append 0xe2 false events usage pressed,
        is_down-append 0x31 false events usage pressed,
      )
      (ground arith)

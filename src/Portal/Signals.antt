-- ===== src/Portal/Signals.antt =====
-- linux/input-router/src/portal.rs and capture.rs: the threads that send events to the router.
-- `takes` says whether the router still receives, given what was sent; a thread stops when not.
pub mod Ended
pub mod Own
use beaglewing.Common.Bytes.{Bytes}
use beaglewing.Geometry.Scalar.{Scalar}
use beaglewing.Router.Defs.{
  Event, activated, deactivated, disabled, zones_changed, screen_saver, key, button, motion,
  scroll_discrete, scroll_delta, frame, ei_disconnected,
}
use beaglewing.Portal.Defs.{
  activation_id, cursor_position, Value, point, Vardict, u32_or_0, same_bytes,
}
use beaglewing.Common.{
  if◌then◌else◌, ℕ, ◌+◌, Bool, true, false, ◌&&◌, Option, none, some, List, [], ◌∷◌, ◌++◌,
}

-- The signals of the portal; each has a thread of its own.
pub data Signal : Type 0 where
  activated_signal deactivated_signal disabled_signal zones_changed_signal : Signal

module _ (f : Scalar) where
  open f use {F, zero_f}

  -- What libei reports; the seat is bound when it is added. `f32` values are F.
  pub data EiEvent : Type 0 where
    seat_added : EiEvent
    keyboard_key ei_button : ℕ → Bool → EiEvent
    pointer_motion ei_scroll_delta : F → F → EiEvent
    ei_scroll_discrete : ℕ → ℕ → EiEvent
    ei_frame disconnected other_event : EiEvent

  -- The events sent, and how often a seat was bound.
  pub record Capturing : Type 0 where
    pub sent : List (Event f)
    pub bound : ℕ

  cursor : Option (Value f) → F × F
  cursor (some (point x y)) = (x, y)
  cursor _ = (zero_f, zero_f)

  activation : ℕ → F × F → Event f
  activation id (x, y) = activated id x y

  -- The event that a signal with these options stands for.
  unfoldable pub signal_event : Signal → Vardict f → Event f
  unfolding cursor activation u32_or_0
  signal_event activated_signal opts =
      activation (u32_or_0 f (opts activation_id)) (cursor (opts cursor_position))
  signal_event deactivated_signal opts = deactivated
  signal_event disabled_signal opts = disabled
  signal_event zones_changed_signal opts = zones_changed

  -- The router does not read the time of a key and the horizontal scroll.
  unfoldable pub mapped : EiEvent → Option (Event f)
  mapped seat_added = none
  mapped (keyboard_key code pressed) = some (key code pressed)
  mapped (ei_button code pressed) = some (button code pressed)
  mapped (pointer_motion dx dy) = some (motion dx dy)
  mapped (ei_scroll_discrete dx dy) = some (scroll_discrete dy)
  mapped (ei_scroll_delta dx dy) = some (scroll_delta dy)
  mapped ei_frame = some frame
  mapped disconnected = some ei_disconnected
  mapped other_event = none

  unfoldable pub bind_seat : EiEvent → Capturing → Capturing
  bind_seat seat_added c = record c { bound = c.bound + 1 }
  bind_seat e c = c

  unfoldable pub is_disconnect : Event f → Bool
  is_disconnect ei_disconnected = true
  is_disconnect e = false

  module _ (takes : List (Event f) → Bool) where
    -- Whether the router took the event; one that it does not take is lost.
    unfoldable pub send : Event f → List (Event f) → List (Event f)
    send e sent = if takes sent then sent ++ (e ∷ []) else sent

    -- The thread of a signal; a message that is malformed or of another session is skipped.
    unfoldable pub forward_signals :
        Bytes → Signal → List (Option (Bytes × Vardict f)) → List (Event f) → List (Event f)
    unfolding signal_event same_bytes
    forward_signals session name [] sent = sent
    forward_signals session name (none ∷ ms) sent = forward_signals session name ms sent
    forward_signals session name (some (handle, opts) ∷ ms) sent =
        let skipped = forward_signals session name ms sent in
        let passed = forward_signals session name ms (sent ++ (signal_event name opts ∷ [])) in
        if same_bytes handle session then if takes sent then passed else sent else skipped

    -- The thread of the screensaver.
    unfoldable pub forward_screen_saver : List (Option Bool) → List (Event f) → List (Event f)
    forward_screen_saver [] sent = sent
    forward_screen_saver (none ∷ ms) sent = forward_screen_saver ms sent
    forward_screen_saver (some active ∷ ms) sent =
        let rest = forward_screen_saver ms (sent ++ (screen_saver active ∷ [])) in
        if takes sent then rest else sent

    -- The loop over the events, with what follows it; `none` is an error of the stream.
    unfoldable pub read_events : List (Option EiEvent) → Capturing → Capturing
    unfolding send mapped bind_seat is_disconnect
    read_events [] c = record c { sent = send ei_disconnected c.sent }
    read_events (none ∷ es) c = record c { sent = send ei_disconnected c.sent }
    read_events (some e ∷ es) c =
        let quiet = read_events es (bind_seat e c) in
        elim (mapped e) [
          | none ↦ quiet
          | some ev ↦
              let d : Capturing = record c { sent = c.sent ++ (ev ∷ []) } in
              let rest = read_events es d in
              if takes c.sent then if is_disconnect ev then d else rest else c
        ]

    -- Whether the context and the handshake succeed, and what is read then.
    unfoldable pub capture : Bool → Bool → List (Option EiEvent) → Capturing → Capturing
    unfolding read_events send
    capture context handshake es c =
        if context && handshake
        then read_events es c
        else record c { sent = send ei_disconnected c.sent }

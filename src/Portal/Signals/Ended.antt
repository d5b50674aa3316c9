-- ===== src/Portal/Signals/Ended.antt =====
-- linux/input-router/src/capture.rs: how the stream of captured input ends.
use beaglewing.Geometry.Scalar.{Scalar}
use beaglewing.Portal.Signals.{
  EiEvent, seat_added, keyboard_key, ei_button, pointer_motion, ei_scroll_delta, ei_scroll_discrete,
  ei_frame, disconnected, other_event, Capturing, is_disconnect, send, read_events, capture, mapped,
  bind_seat,
}
use beaglewing.Router.Defs.{
  Event, key, button, motion, scroll_discrete, scroll_delta, frame, ei_disconnected,
}
use beaglewing.Common.{
  if◌then◌else◌, if-cases, All, All-append, ◌+◌, ◌≡◌, refl, Bool, false, ◌&&◌, Option, none, some,
  List, [], ◌∷◌, ◌++◌,
}

module _ (f : Scalar) (takes : List (Event f) → Bool) where
  -- No end of the stream was sent.
  abbrev pub IsOpen : List (Event f) → Type 0
  IsOpen = All (λ e. is_disconnect f e ≡ false)

  -- One end was sent, as the last event, or none and the router is gone.
  pub data IsEnded : List (Event f) → Type 0 where
    ended : (es : List (Event f)) → IsOpen es → IsEnded (es ++ (ei_disconnected ∷ []))
    gone : (es : List (Event f)) → takes es ≡ false → IsOpen es → IsEnded es

  send-IsEnded : (es : List (Event f)) → IsOpen es → IsEnded (send f takes ei_disconnected es)
  unfolding send
  send-IsEnded es o = if-cases IsEnded (takes es) (λ t. ended es o) (λ g. gone es g o)

  passed-IsEnded :
      (e : Event f) (c r : Capturing f)
      → is_disconnect f e ≡ false
      → IsOpen c.sent
      → (IsOpen (c.sent ++ (e ∷ [])) → IsEnded r.sent)
      → IsEnded ((if takes c.sent then r else c).sent)
  passed-IsEnded e c r d o h =
      if-cases (λ (r : Capturing f). IsEnded r.sent) (takes c.sent)
        (λ t. h (All-append (λ e. is_disconnect f e ≡ false) c.sent (e ∷ []) o (d, tt)))
        (λ g. gone c.sent g o)

  read_events-IsEnded :
      (es : List (Option (EiEvent f))) (c : Capturing f)
      → IsOpen c.sent
      → IsEnded ((read_events f takes es c).sent)
  unfolding read_events mapped bind_seat is_disconnect
  read_events-IsEnded [] c o = send-IsEnded c.sent o
  read_events-IsEnded (none ∷ es) c o = send-IsEnded c.sent o
  read_events-IsEnded (some seat_added ∷ es) c o =
      read_events-IsEnded es (record c { bound = c.bound + 1 }) o
  read_events-IsEnded (some other_event ∷ es) c o = read_events-IsEnded es c o
  read_events-IsEnded (some (keyboard_key k p) ∷ es) c o =
      passed-IsEnded (key k p) c _ refl o (read_events-IsEnded es _)
  read_events-IsEnded (some (ei_button b p) ∷ es) c o =
      passed-IsEnded (button b p) c _ refl o (read_events-IsEnded es _)
  read_events-IsEnded (some (pointer_motion dx dy) ∷ es) c o =
      passed-IsEnded (motion dx dy) c _ refl o (read_events-IsEnded es _)
  read_events-IsEnded (some (ei_scroll_delta dx dy) ∷ es) c o =
      passed-IsEnded (scroll_delta dy) c _ refl o (read_events-IsEnded es _)
  read_events-IsEnded (some (ei_scroll_discrete dx dy) ∷ es) c o =
      passed-IsEnded (scroll_discrete dy) c _ refl o (read_events-IsEnded es _)
  read_events-IsEnded (some ei_frame ∷ es) c o =
      passed-IsEnded frame c _ refl o (read_events-IsEnded es _)
  read_events-IsEnded (some disconnected ∷ es) c o =
      if-cases (λ (r : Capturing f). IsEnded r.sent) (takes c.sent) (λ t. ended c.sent o)
        (λ g. gone c.sent g o)

  -- However the stream of captured input goes, from the set-up of the connection on, the router is
  -- told that it ended exactly once, after all other events, unless the router is gone before.
  pub capture-IsEnded :
      (context handshake : Bool) (es : List (Option (EiEvent f))) (c : Capturing f)
      → IsOpen c.sent
      → IsEnded ((capture f takes context handshake es c).sent)
  unfolding capture
  capture-IsEnded context handshake es c o =
      if-cases (λ (r : Capturing f). IsEnded r.sent) (context && handshake)
        (λ _. read_events-IsEnded es c o) (λ _. send-IsEnded c.sent o)

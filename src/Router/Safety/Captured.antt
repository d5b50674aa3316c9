-- ===== src/Router/Safety/Captured.antt =====
-- The handling of captured input keeps the invariant, and does not panic.
use beaglewing.Router.Safety.Secure.{Secure, go_local-Secure, leave-Secure}
use beaglewing.Hidmap.{keycode_to_usage}
use beaglewing.Geometry.Inside.{IsMoved, IsMoved-AreUsable, canonical_range}
use beaglewing.Geometry.Moves.{apply_delta-IsMoved}
use beaglewing.Geometry.Scalar.{Scalar, IsOrdered}
use beaglewing.Geometry.Space.{Crossing, stays, to_remote, to_local, Target, local, remote, Space}
use beaglewing.Client.Defs.{Command}
use beaglewing.Router.Defs.{
  held, ended, Zone, Action, Router, errs, Event, key, button, motion, scroll_discrete,
  scroll_delta, frame, ei_disconnected,
}
use beaglewing.Router.Emergency.{update}
use beaglewing.Router.Handle.{
  send_key, on_usage, on_key, on_button, on_scroll_discrete, on_scroll_delta, note_position,
  after_move, moved, on_frame, on_capture, captured,
}
use beaglewing.Router.Safety.Invariant.{IsSafe}
use beaglewing.Router.Upkeep.{is_some}
use beaglewing.Common.{
  if-cases, ℕ, ◌%◌, ◌≡◌, ◌∙◌, Bool, true, ◌&&◌, Option, none, some, List, arith,
}

module _ (f : Scalar) (o : IsOrdered f) (zone : Zone)
    (takes : List (Action f) → Command → Bool) where
  send_key-IsSafe :
      (usage now : ℕ) (pressed : Bool) (r : Router f)
      → IsSafe f o r
      → is_some r.active_id ≡ true
      → IsSafe f o (send_key f zone takes usage pressed now r)
  unfolding send_key held ended
  send_key-IsSafe usage now pressed r v a = ground arith

  on_usage-Secure :
      (usage : Option ℕ) (now : ℕ) (pressed : Bool) (r : Router f)
      → IsSafe f o r
      → is_some r.active_id ≡ true
      → Secure f o (on_usage f zone takes usage pressed now r)
  unfolding on_usage
  on_usage-Secure none now pressed r v a = v
  on_usage-Secure (some usage) now pressed r v a =
      let e = update r.emergency usage pressed in
      let same : IsSafe f o (record r { emergency = e.0 }) = record {
        connected = v.connected;
        screen = v.screen;
        clean = v.clean;
        no_buttons = v.no_buttons;
        usable = v.usable;
        tracked = v.tracked;
      } in
      if-cases (Secure f o) e.1 (λ _. leave-Secure f o zone takes _ v.usable v.tracked)
        (λ _. send_key-IsSafe usage now pressed _ same a)

  on_button-IsSafe :
      (code now : ℕ) (pressed : Bool) (r : Router f)
      → IsSafe f o r
      → is_some r.active_id ≡ true
      → IsSafe f o (on_button f zone takes code pressed now r)
  unfolding on_button held ended
  on_button-IsSafe code now pressed r v a = ground arith

  on_scroll_discrete-IsSafe :
      (y : ℕ) (r : Router f) → IsSafe f o r → IsSafe f o (on_scroll_discrete f zone takes y r)
  unfolding on_scroll_discrete held ended
  on_scroll_discrete-IsSafe y r v = ground arith

  on_scroll_delta-IsSafe :
      (dy : f.F) (r : Router f) → IsSafe f o r → IsSafe f o (on_scroll_delta f zone takes dy r)
  unfolding on_scroll_delta held ended
  on_scroll_delta-IsSafe dy r v = ground arith

  note_position-Secure :
      (t : Target) (r : Router f) → IsSafe f o r → Secure f o (note_position f zone takes t r)
  unfolding note_position
  note_position-Secure local r v = v
  note_position-Secure remote r v =
      let (cx, cy, c, _, _) = canonical_range f o r.space in
      rw c (record {
        connected = v.connected;
        screen = v.screen;
        clean = v.clean;
        no_buttons = v.no_buttons;
        usable = v.usable;
        tracked = v.tracked;
      })

  -- A frame while a capture is active: the cursor stays on the remote screen or comes home.
  after_move-Secure :
      (c : Crossing) (s : Space f) (r : Router f)
      → IsSafe f o r
      → is_some r.active_id ≡ true
      → IsMoved f o r.space c s
      → Secure f o
          (after_move f zone takes c (record r { space = s; acc_dx = f.zero_f; acc_dy = f.zero_f }))
  unfolding after_move
  after_move-Secure to_local s r v a m =
      leave-Secure f o zone takes _ (IsMoved-AreUsable f o m v.usable) v.tracked
  after_move-Secure to_remote s r v a m = absurd (ground (arith, m.crosses, v.screen))
  after_move-Secure stays s r v a m = note_position-Secure s.target _ (record {
    connected = v.connected;
    screen = m.crosses ∙ v.screen;
    clean = v.clean;
    no_buttons = v.no_buttons;
    usable = IsMoved-AreUsable f o m v.usable;
    tracked = v.tracked;
  })

  on_frame-Secure :
      (r : Router f)
      → IsSafe f o r
      → is_some r.active_id ≡ true
      → Secure f o (on_frame f zone takes r)
  unfolding on_frame
  on_frame-Secure r v a =
      let (s, c, e, m) = apply_delta-IsMoved f o r.space r.acc_dx r.acc_dy v.usable in
      if-cases (Secure f o) (f.eq r.acc_dx f.zero_f && f.eq r.acc_dy f.zero_f) (λ _. v)
        (λ _. rw e (unfold moved in after_move-Secure c s r v a m))

  on_capture-Secure :
      (e : Event f) (now : ℕ) (r : Router f)
      → IsSafe f o r
      → is_some r.active_id ≡ true
      → Secure f o (on_capture f zone takes e now r)
  unfolding on_capture
  on_capture-Secure (key code pressed) now r v a =
      unfold on_key in on_usage-Secure (keycode_to_usage (code % 65536)) now pressed r v a
  on_capture-Secure (button code pressed) now r v a = on_button-IsSafe code now pressed r v a
  on_capture-Secure (motion dx dy) now r v a = ground arith
  on_capture-Secure (scroll_discrete y) now r v a = on_scroll_discrete-IsSafe y r v
  on_capture-Secure (scroll_delta dy) now r v a = on_scroll_delta-IsSafe dy r v
  on_capture-Secure frame now r v a = on_frame-Secure r v a
  on_capture-Secure ei_disconnected now r v a =
      go_local-Secure f o zone takes errs r v.usable v.tracked (λ r' h. tt)
  on_capture-Secure _ now r v a = v

  pub captured-Secure :
      (e : Event f) (now : ℕ) (r : Router f)
      → IsSafe f o r
      → Secure f o (captured f zone takes e now r)
  captured-Secure e now r v =
      let w : IsSafe f o (record r { events_this_activation = true }) = record {
        connected = v.connected;
        screen = v.screen;
        clean = v.clean;
        no_buttons = v.no_buttons;
        usable = v.usable;
        tracked = v.tracked;
      } in
      if-cases (Secure f o) (is_some r.active_id) (λ a. on_capture-Secure e now _ w a) (λ _. v)

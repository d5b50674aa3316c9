-- ===== src/Router/Handle.antt =====
-- linux/input-router/src/router.rs: the handling of an event.
use beaglewing.Client.Defs.{Command, key_down, key_up, pointer_abs, pointer_button}
use beaglewing.Common.Words.{sub_i32, abs_ge, div_i32}
use beaglewing.Geometry.Scalar.{Scalar}
use beaglewing.Geometry.Space.{
  Crossing, stays, to_remote, to_local, Target, local, remote, Space, canonical, enter_remote,
  apply_delta,
}
use beaglewing.Hidmap.{keycode_to_usage, button_to_bit}
use beaglewing.Router.Barriers.{Position, arm_barriers}
use beaglewing.Router.Defs.{
  flow, errs, panics, goes, Flow, Zone, remote_state, control_remote, Action, publish, control,
  enable, disable, Router, act, captures, Event, activated, deactivated, disabled, zones_changed,
  timeout, channel_closed, screen_saver, key, button, motion, scroll_discrete, scroll_delta, frame,
  ei_disconnected,
}
use beaglewing.Router.Emergency.{released, update}
use beaglewing.Router.Local.{send, is_taken, go_local}
use beaglewing.Router.Upkeep.{is_some}
use beaglewing.Common.{
  ◌==◌, if◌then◌else◌, ◌>>=◌, ℕ, ◌-◌, ◌%◌, bit_and, bit_or, Bool, true, false, ◌&&◌, Option, none,
  some, List,
}

-- The answers of the portal that the handling of an event may ask for.
pub record Portal : Type 0 where
  pub enables : Bool
  pub zones : Option (List Zone)
  pub places : Position → Option Bool

module _ (f : Scalar) (zone : Zone) (takes : List (Action f) → Command → Bool) where
  open f use {F, add, sub, mul, div, zero_f, fifteen, eq, of_i32, trunc_i32}

  abbrev pub leave : Router f → Flow f
  leave r = flow f goes (go_local f zone takes r)

  -- `if active_id.is_some() { go_local(..) }`, and then the rest
  abbrev pub leave_if_active : (Router f → Flow f) → Router f → Flow f
  leave_if_active next r =
      if is_some r.active_id then flow f next (go_local f zone takes r) else next r

  -- the state for a new activation, before the cursor is placed
  abbrev pub begin : ℕ → ℕ → Router f → Router f
  begin id now r = record r {
    active_id = some id;
    activated_at = now;
    events_this_activation = false;
    emergency = released;
    acc_dx = zero_f;
    acc_dy = zero_f;
    acc_scroll = zero_f;
    pending_pos = none;
    pending_wheel = 0;
  }

  unfoldable pub enter : ℕ → F → ℕ → Router f → Option (Router f)
  enter id cursor_y now r = do
    s ← enter_remote f r.space (sub cursor_y (of_i32 zone.y))
    (cx, cy) ← canonical f s
    let r1 : Router f = record (begin id now r) { space = s }
    let r2 : Router f = record (send f zone takes (pointer_abs cx cy) r1) { last_send = now }
    some (act f (control control_remote) (act f (publish remote_state) r2))

  unfoldable pub on_activated : ℕ → F → ℕ → Router f → Flow f
  unfolding enter
  on_activated id cursor_y now r =
      let q : Router f = act f (captures id) r in
      if q.bridge
      then flow f goes (enter id cursor_y now q)
      else leave (record q { active_id = some id })

  unfoldable pub send_key : ℕ → Bool → ℕ → Router f → Router f
  send_key usage pressed now r =
      let c = (if pressed then key_down usage else key_up usage) in
      if r.bridge
      then record (send f zone takes c r) {
        last_send = (if is_taken f zone takes c r then now else r.last_send);
      }
      else r

  unfoldable pub on_usage : Option ℕ → Bool → ℕ → Router f → Flow f
  unfolding send_key
  on_usage none pressed now r = goes r
  on_usage (some usage) pressed now r =
      let (e, full) = update r.emergency usage pressed in
      if full
      then leave (record r { emergency = released })
      else goes (send_key usage pressed now (record r { emergency = e }))

  unfoldable pub on_key : ℕ → Bool → ℕ → Router f → Flow f
  unfolding on_usage
  on_key code pressed now r = on_usage (keycode_to_usage (code % 65536)) pressed now r

  -- Motion that is pending goes out before a click.
  unfoldable pub flush_before_click : Option (ℕ × ℕ) → ℕ → Router f → Router f
  flush_before_click none now r = r
  flush_before_click (some (x, y)) now r = record (send f zone takes (pointer_abs x y) r) {
    pending_pos = none;
    last_ptr_send = now;
  }

  unfoldable pub on_bit : Option ℕ → Bool → ℕ → Router f → Router f
  unfolding flush_before_click
  on_bit none pressed now r = r
  on_bit (some bit) pressed now r =
      let b = (if pressed then bit_or r.buttons bit else bit_and r.buttons (255 - bit)) in
      let r1 : Router f = record r { buttons = b } in
      if r.bridge
      then (let r2 = flush_before_click r1.pending_pos now r1 in
          record (send f zone takes (pointer_button b) r2) {
            last_send = (if is_taken f zone takes (pointer_button b) r2 then now else r2.last_send);
          })
      else r1

  unfoldable pub on_button : ℕ → Bool → ℕ → Router f → Router f
  unfolding on_bit
  on_button code pressed now r = on_bit (button_to_bit (code % 65536)) pressed now r

  unfoldable pub on_scroll_discrete : ℕ → Router f → Router f
  on_scroll_discrete y r =
      let clicks = (if abs_ge y 120 then div_i32 y 120 else y) in
      record r { pending_wheel = sub_i32 r.pending_wheel clicks }

  unfoldable pub on_scroll_delta : F → Router f → Router f
  on_scroll_delta dy r =
      let total = add r.acc_scroll dy in
      let clicks = trunc_i32 (div total fifteen) in
      if clicks == 0 then record r { acc_scroll = total } else record r {
        acc_scroll = sub total (mul (of_i32 clicks) fifteen);
        pending_wheel = sub_i32 r.pending_wheel clicks;
      }

  -- `space.target == Target::Remote` after a frame that did not cross back
  unfoldable pub note_position : Target → Router f → Flow f
  note_position local r = goes r
  note_position remote r =
      flow f goes (do p ← canonical f r.space; some (record r { pending_pos = some p }))

  unfoldable pub after_move : Crossing → Router f → Flow f
  unfolding note_position
  after_move to_local r = leave r
  after_move stays r = note_position r.space.target r
  after_move to_remote r = note_position r.space.target r

  unfoldable pub moved : Option (Space f × Crossing) → Router f → Flow f
  unfolding after_move
  moved none r = panics
  moved (some (s, c)) r = after_move c (record r { space = s; acc_dx = zero_f; acc_dy = zero_f })

  unfoldable pub on_frame : Router f → Flow f
  unfolding moved
  on_frame r =
      if eq r.acc_dx zero_f && eq r.acc_dy zero_f
      then goes r
      else moved (apply_delta f r.space r.acc_dx r.acc_dy) r

  -- Captured input while a capture is active; other events do not get here.
  unfoldable pub on_capture : Event f → ℕ → Router f → Flow f
  unfolding on_key on_button on_scroll_discrete on_scroll_delta on_frame
  on_capture (key code pressed) now r = on_key code pressed now r
  on_capture (button code pressed) now r = goes (on_button code pressed now r)
  on_capture (motion dx dy) now r =
      goes (record r { acc_dx = add r.acc_dx dx; acc_dy = add r.acc_dy dy })
  on_capture (scroll_discrete y) now r = goes (on_scroll_discrete y r)
  on_capture (scroll_delta dy) now r = goes (on_scroll_delta dy r)
  on_capture frame now r = on_frame r
  on_capture ei_disconnected now r = flow f errs (go_local f zone takes r)
  on_capture other now r = goes r

  -- Stray events while local are dropped.
  abbrev pub captured : Event f → ℕ → Router f → Flow f
  captured e now r =
      if is_some r.active_id
      then on_capture e now (record r { events_this_activation = true })
      else goes r

  unfoldable pub re_enable : Bool → Router f → Flow f
  re_enable ok r = if ok then goes (act f enable r) else errs (act f enable r)

  unfoldable pub on_unlock : Portal → Router f → Flow f
  unfolding re_enable
  on_unlock portal r =
      let r1 = act f disable r in
      elim (arm_barriers portal.zones portal.places) [
        | none ↦ errs r1
        | some _ ↦ re_enable portal.enables r1
      ]

  unfoldable pub handle : Event f → ℕ → Portal → Router f → Flow f
  unfolding on_activated re_enable on_unlock on_capture
  handle (activated id cursor_x cursor_y) now portal r = on_activated id cursor_y now r
  handle deactivated now portal r = leave_if_active goes r
  handle disabled now portal r = leave_if_active (re_enable portal.enables) r
  handle (screen_saver true) now portal r = leave_if_active goes r
  handle (screen_saver false) now portal r = on_unlock portal r
  handle zones_changed now portal r = flow f errs (go_local f zone takes r)
  handle timeout now portal r = goes r
  handle channel_closed now portal r = errs r
  handle e now portal r = captured e now r

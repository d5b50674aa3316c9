-- ===== src/Router/Safety/Handle.antt =====
-- The handling of an event keeps the invariant, and does not panic.
use beaglewing.Router.Safety.Secure.{Secure, go_local-Secure, leave_if_active-Secure, leave-Secure}
use beaglewing.Router.Safety.Captured.{captured-Secure}
use beaglewing.Geometry.Inside.{enter_remote_total, canonical_range}
use beaglewing.Geometry.Scalar.{Scalar, IsOrdered}
use beaglewing.Client.Defs.{Command}
use beaglewing.Router.Defs.{
  act, captures, held, ended, Zone, Action, Router, is_clean, goes, errs, Event, activated,
  deactivated, disabled, zones_changed, timeout, channel_closed, screen_saver,
}
use beaglewing.Router.Handle.{Portal, enter, on_activated, re_enable, on_unlock, handle}
use beaglewing.Router.Safety.Invariant.{IsSafe, IsHome}
use beaglewing.Common.{if-cases, ℕ, refl, Bool, true, false, some, List, arith}

module _ (f : Scalar) (o : IsOrdered f) (zone : Zone)
    (takes : List (Action f) → Command → Bool) where
  re_enable-Secure :
      (ok : Bool) (r : Router f) → IsHome f o r → Secure f o (re_enable f zone takes ok r)
  unfolding re_enable is_clean held ended
  re_enable-Secure true r h = ground (arith, h.safe)
  re_enable-Secure false r h = tt

  on_unlock-Secure :
      (portal : Portal) (r : Router f) → IsSafe f o r → Secure f o (on_unlock f zone takes portal r)
  unfolding on_unlock re_enable is_clean held ended
  on_unlock-Secure portal r v = ground arith

  on_activated-Secure :
      (id now : ℕ) (cursor_y : f.F) (r : Router f)
      → IsSafe f o r
      → Secure f o (on_activated f zone takes id cursor_y now r)
  unfolding on_activated enter is_clean held ended
  on_activated-Secure id now cursor_y r v =
      let (s, e, u, t) =
        enter_remote_total f o r.space (f.sub cursor_y (f.of_i32 zone.y)) v.usable in
      let (cx, cy, c, _, _) = canonical_range f o s in
      if-cases (Secure f o) r.bridge
        (λ b. rw e (
          rw c (record {
            connected = ground arith;
            screen = t;
            clean = refl;
            no_buttons = refl;
            usable = u;
            tracked = refl;
          })))
        (λ _.
          leave-Secure f o zone takes (record (act f (captures id) r) { active_id = some id })
            v.usable refl)

  -- The handling of any event in a safe state, with any answers of the portal, goes on in a safe
  -- state or returns `Err`, and does not panic; should it return `Ok`, no capture is active.
  pub handle-Secure :
      (e : Event f) (now : ℕ) (portal : Portal) (r : Router f)
      → IsSafe f o r
      → Secure f o (handle f zone takes e now portal r)
  unfolding handle
  handle-Secure (activated id x y) now portal r v = on_activated-Secure id now y r v
  handle-Secure deactivated now portal r v =
      leave_if_active-Secure f o zone takes goes r v (λ r' h. h.safe)
  handle-Secure disabled now portal r v =
      leave_if_active-Secure f o zone takes (re_enable f zone takes portal.enables) r v
        (λ r' h. re_enable-Secure portal.enables r' h)
  handle-Secure (screen_saver true) now portal r v =
      leave_if_active-Secure f o zone takes goes r v (λ r' h. h.safe)
  handle-Secure (screen_saver false) now portal r v = on_unlock-Secure portal r v
  handle-Secure zones_changed now portal r v =
      go_local-Secure f o zone takes errs r v.usable v.tracked (λ r' h. tt)
  handle-Secure timeout now portal r v = v
  handle-Secure channel_closed now portal r v = tt
  handle-Secure e now portal r v = captured-Secure f o zone takes e now r v

-- ===== src/Router/Upkeep.antt =====
-- linux/input-router/src/router.rs: what a round of the loop does before it receives an event.
use beaglewing.Client.Defs.{Command, keepalive, release_all, pointer_abs, pointer_wheel}
use beaglewing.Common.Words.{clamp_i8}
use beaglewing.Geometry.Scalar.{Scalar}
use beaglewing.Router.Defs.{Zone, local_state, no_bridge, Action, connect, publish, Router, act}
use beaglewing.Router.Local.{send, is_taken, go_local}
use beaglewing.Common.{
  ltb, leb, ◌==◌, if◌then◌else◌, ◌>>=◌, ℕ, ◌-◌, Bool, true, false, not, ◌&&◌, ◌||◌, Option, none,
  some, List,
}

abbrev pub is_some {ℓ} : {A : Type ℓ} → Option A → Bool
is_some none = false
is_some (some a) = true

module _ (f : Scalar) (zone : Zone) (takes : List (Action f) → Command → Bool) where
  -- the keepalive; the flag is `bridge_dead`
  unfoldable pub keep_alive : ℕ → Router f → Router f × Bool
  keep_alive now r =
      if r.bridge && ltb 1000 (now - r.last_send)
      then (if is_taken f zone takes keepalive r
          then (record (send f zone takes keepalive r) { last_send = now }, false)
          else (send f zone takes keepalive r, true))
      else (r, false)

  unfoldable pub drop_bridge : Router f → Option (Router f)
  drop_bridge r =
      let r1 = act f (publish no_bridge) (record r { bridge = false }) in
      if is_some r.active_id then go_local f zone takes r1 else some r1

  unfoldable pub check_bridge : ℕ → Router f → Option (Router f)
  unfolding keep_alive drop_bridge
  check_bridge now r = let (r1, dead) = keep_alive now r in if dead then drop_bridge r1 else some r1

  -- `connects` is the result of `BridgeClient::connect`, should it be called.
  unfoldable pub reconnect : ℕ → Bool → Router f → Router f
  reconnect now connects r =
      if not r.bridge && ltb 2000 (now - r.last_reconnect)
      then (let r1 = act f connect (record r { last_reconnect = now }) in
          if connects
          then act f (publish local_state)
              (record (send f zone takes release_all r1) { bridge = true; last_send = now })
          else r1)
      else r

  unfoldable pub failsafe : ℕ → Router f → Option (Router f)
  failsafe now r =
      if is_some r.active_id && (not r.events_this_activation && ltb 3000 (now - r.activated_at))
      then go_local f zone takes r
      else some r

  unfoldable pub forget_pending : Router f → Router f
  forget_pending r =
      if is_some r.active_id then r else record r { pending_pos = none; pending_wheel = 0 }

  unfoldable pub flush_position : Option (ℕ × ℕ) → Router f → Router f × Bool
  flush_position none r = (r, true)
  flush_position (some (x, y)) r = (
    record (send f zone takes (pointer_abs x y) r) { pending_pos = none },
    is_taken f zone takes (pointer_abs x y) r,
  )

  unfoldable pub flush_wheel : Router f → Router f × Bool
  flush_wheel r = if r.pending_wheel == 0 then (r, true) else (
    record (send f zone takes (pointer_wheel (clamp_i8 r.pending_wheel)) r) { pending_wheel = 0 },
    is_taken f zone takes (pointer_wheel (clamp_i8 r.pending_wheel)) r,
  )

  unfoldable pub flush : ℕ → Router f → Router f
  unfolding flush_position flush_wheel
  flush now r =
      if (is_some r.pending_pos || not (r.pending_wheel == 0)) && leb 4 (now - r.last_ptr_send)
      then (if r.bridge
          then (let (r1, ok1) = flush_position r.pending_pos r in
              let (r2, ok2) = flush_wheel r1 in
              record r2 {
                last_send = (if ok1 && ok2 then now else r2.last_send);
                last_ptr_send = now;
              })
          else record r { pending_pos = none; pending_wheel = 0; last_ptr_send = now })
      else r

  unfoldable pub upkeep : ℕ → Bool → Router f → Option (Router f)
  unfolding check_bridge reconnect failsafe forget_pending flush
  upkeep now connects r = do
    r1 ← check_bridge now r
    r2 ← failsafe now (reconnect now connects r1)
    some (flush now (forget_pending r2))

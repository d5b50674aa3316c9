-- ===== src/Router/Local.antt =====
-- linux/input-router/src/router.rs: the closure `go_local`, and messages to the bridge.
use beaglewing.Client.Defs.{Command, release_all}
use beaglewing.Geometry.Scalar.{Scalar}
use beaglewing.Geometry.Space.{Space, force_local}
use beaglewing.Router.Defs.{
  Zone, local_state, no_bridge, control_local, Action, sent, release, publish, control, Router, act,
}
use beaglewing.Common.{if◌then◌else◌, ◌>>=◌, ℕ, Bool, Option, none, some, List}

-- `takes` says whether the write of a command succeeds after these actions. `zone` is the zone of
-- the first arming, which the closure holds.
module _ (f : Scalar) (zone : Zone) (takes : List (Action f) → Command → Bool) where
  open f use {add, of_i32}

  abbrev pub send : Command → Router f → Router f
  send c r = act f (sent c) r

  abbrev pub is_taken : Command → Router f → Bool
  is_taken c r = takes r.actions c

  -- `if let Some(b) = bridge.as_mut()`: RELEASE_ALL, its result ignored
  unfoldable pub release_bridge : Router f → Router f
  release_bridge r = if r.bridge then send release_all r else r

  unfoldable pub give_back : Option ℕ → Router f → Router f
  give_back none r = r
  give_back (some id) r =
      act f (release id (add (of_i32 zone.x) r.space.x) (add (of_i32 zone.y) r.space.y))
        (record r { active_id = none })

  unfoldable pub announce : Router f → Router f
  announce r =
      act f (control control_local)
        (act f (publish (if r.bridge then local_state else no_bridge)) r)

  -- What the closure does around the move of the cursor to the local space `s`.
  unfoldable pub brought_home : Space f → Router f → Router f
  unfolding release_bridge give_back announce
  brought_home s r =
      let r1 : Router f = record (release_bridge r) { buttons = 0; space = s } in
      announce (give_back r.active_id r1)

  -- `none` is a panic of the geometry.
  unfoldable pub go_local : Router f → Option (Router f)
  go_local r = do s ← force_local f r.space; some (brought_home s r)

-- ===== src/Router/Loop.antt =====
-- linux/input-router/src/router.rs: a round of the main loop, and its run.
use beaglewing.Client.Defs.{Command}
use beaglewing.Geometry.Scalar.{Scalar}
use beaglewing.Geometry.Space.{Screen, right, new_space}
use beaglewing.Router.Emergency.{released}
use beaglewing.Router.Defs.{Zone, Action, Router, Event, publish, connect, local_state, no_bridge}
use beaglewing.Router.Handle.{Portal, handle}
use beaglewing.Router.Defs.{Flow, goes, returns, errs, panics, flow}
use beaglewing.Router.Local.{go_local}
use beaglewing.Router.Upkeep.{upkeep}
use beaglewing.Common.{false, none, if◌then◌else◌, ℕ, Bool, List, [], ◌∷◌}

module _ (f : Scalar) where
  -- The environment of one round: the shutdown flag, the time, whether a connection attempt
  -- succeeds, the event received, its time, and the answers of the portal.
  pub record Turn : Type 0 where
    pub shutdown : Bool
    pub now : ℕ
    pub connects : Bool
    pub event : Event f
    pub received_at : ℕ
    pub portal : Portal

  -- The state with which the loop begins: the variables that `run` sets up once the barrier stands
  -- and the first connection was tried.
  unfoldable pub started : Zone → Screen f → Bool → ℕ → Router f
  started zone there connects now = record {
    bridge = connects;
    active_id = none;
    space =
        new_space f (record { width = f.of_u32 zone.width; height = f.of_u32 zone.height }) there
          right;
    activated_at = now;
    events_this_activation = false;
    emergency = released;
    acc_dx = f.zero_f;
    acc_dy = f.zero_f;
    acc_scroll = f.zero_f;
    buttons = 0;
    last_send = now;
    last_reconnect = now;
    last_ptr_send = now;
    pending_pos = none;
    pending_wheel = 0;
    actions = publish (if connects then local_state else no_bridge) ∷ connect ∷ [];
  }

module _ (f : Scalar) (zone : Zone) (takes : List (Action f) → Command → Bool) where
  abbrev handle_turn : Turn f → Router f → Flow f
  handle_turn t r = handle f zone takes t.event t.received_at t.portal r

  unfoldable pub turn : Turn f → Router f → Flow f
  turn t r =
      if t.shutdown
      then flow f returns (go_local f zone takes r)
      else flow f (handle_turn t) (upkeep f zone takes t.now t.connects r)

  -- the loop over the rounds given
  unfoldable pub run : List (Turn f) → Router f → Flow f
  unfolding turn
  run [] r = goes r
  run (t ∷ ts) r =
      let rest = run ts in
      elim (turn t r) [
        | goes r' ↦ rest r'
        | returns r' ↦ returns r'
        | errs r' ↦ errs r'
        | panics ↦ panics
      ]

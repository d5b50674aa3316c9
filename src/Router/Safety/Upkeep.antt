-- ===== src/Router/Safety/Upkeep.antt =====
-- The part of a round before an event is received keeps the invariant, and does not panic.
use beaglewing.Client.Defs.{Command}
use beaglewing.Geometry.Inside.{AreUsable}
use beaglewing.Geometry.Scalar.{Scalar, IsOrdered}
use beaglewing.Router.Defs.{held, ended, Zone, Action, Router, is_clean}
use beaglewing.Router.Local.{go_local}
use beaglewing.Router.Safety.Invariant.{IsSafe, go_local-IsHome}
use beaglewing.Router.Upkeep.{
  is_some, keep_alive, drop_bridge, check_bridge, reconnect, failsafe, forget_pending, flush,
  upkeep,
}
use beaglewing.Common.{
  ltb, Bool-cases, if-cases, ◌>>=◌, ℕ, ◌-◌, ◌≡◌, refl, inl, inr, Bool, not, ◌&&◌, Option, none,
  some, List, arith,
}

module _ (f : Scalar) (o : IsOrdered f) (zone : Zone)
    (takes : List (Action f) → Command → Bool) where
  -- The function returns, with a safe state.
  abbrev pub Safely : Option (Router f) → Type 0
  Safely none = ⊥
  Safely (some r) = IsSafe f o r

  go_local-Safely :
      (r : Router f)
      → AreUsable f o r.space
      → held f r.actions ≡ r.active_id
      → Safely (go_local f zone takes r)
  go_local-Safely r u t = let (r', e, h, b) = go_local-IsHome f o zone takes r u t in rw e h.safe

  pub drop_bridge-Safely : (r : Router f) → IsSafe f o r → Safely (drop_bridge f zone takes r)
  unfolding drop_bridge is_clean held ended
  drop_bridge-Safely r v = elim (Bool-cases (is_some r.active_id)) [
    | inl e ↦ rw e (go_local-Safely _ v.usable v.tracked)
    | inr e ↦ rw e (record {
      connected = rw e refl;
      screen = v.screen;
      clean = ground arith;
      no_buttons = v.no_buttons;
      usable = v.usable;
      tracked = v.tracked;
    })
  ]

  pub keep_alive-IsSafe :
      (now : ℕ) (r : Router f) → IsSafe f o r → IsSafe f o (keep_alive f zone takes now r).0
  unfolding keep_alive is_clean held ended
  keep_alive-IsSafe now r v = ground arith

  check_bridge-Safely :
      (now : ℕ) (r : Router f) → IsSafe f o r → Safely (check_bridge f zone takes now r)
  unfolding check_bridge
  check_bridge-Safely now r v =
      let w = keep_alive-IsSafe now r v in
      if-cases Safely (keep_alive f zone takes now r).1 (λ _. drop_bridge-Safely _ w) (λ _. w)

  pub reconnect-IsSafe :
      (now : ℕ) (connects : Bool) (r : Router f)
      → IsSafe f o r
      → IsSafe f o (reconnect f zone takes now connects r)
  unfolding reconnect is_clean held ended
  reconnect-IsSafe now connects r v = ground arith

  failsafe-Safely : (now : ℕ) (r : Router f) → IsSafe f o r → Safely (failsafe f zone takes now r)
  unfolding failsafe
  failsafe-Safely now r v =
      if-cases Safely
        (is_some r.active_id && (not r.events_this_activation && ltb 3000 (now - r.activated_at)))
        (λ _. go_local-Safely r v.usable v.tracked) (λ _. v)

  pub forget_pending-IsSafe :
      (r : Router f) → IsSafe f o r → IsSafe f o (forget_pending f zone takes r)
  unfolding forget_pending
  forget_pending-IsSafe r v = ground arith

  pub flush-IsSafe : (now : ℕ) (r : Router f) → IsSafe f o r → IsSafe f o (flush f zone takes now r)
  unfolding flush is_clean held ended
  flush-IsSafe now r v = ground arith

  Safely-bind :
      (m : Option (Router f)) (k : Router f → Option (Router f))
      → Safely m
      → ((r : Router f) → IsSafe f o r → Safely (k r))
      → Safely (m >>= k)
  Safely-bind none k h g = h
  Safely-bind (some r) k h g = g r h

  -- The part of a round before an event is received, begun in a safe state at any time and whether
  -- or not the bridge answers, does not panic and leads to a safe state.
  pub upkeep-Safely :
      (now : ℕ) (connects : Bool) (r : Router f)
      → IsSafe f o r
      → Safely (upkeep f zone takes now connects r)
  unfolding upkeep
  upkeep-Safely now connects r v =
      Safely-bind (check_bridge f zone takes now r) _ (check_bridge-Safely now r v) λ r1 v1.
        Safely-bind (failsafe f zone takes now (reconnect f zone takes now connects r1)) _
          (failsafe-Safely now _ (reconnect-IsSafe now connects r1 v1))
          λ r2 v2. flush-IsSafe now _ (forget_pending-IsSafe r2 v2)

-- ===== src/Router/Safety/Recovery.antt =====
-- Input that goes nowhere is given back: a lost bridge, and a capture without events.
use beaglewing.Client.Defs.{Command, keepalive}
use beaglewing.Geometry.Inside.{AreUsable}
use beaglewing.Geometry.Scalar.{Scalar, IsOrdered}
use beaglewing.Router.Defs.{act, publish, no_bridge, held, Zone, Action, Router}
use beaglewing.Router.Local.{is_taken, go_local}
use beaglewing.Router.Safety.Secure.{inactive-IsHome}
use beaglewing.Router.Safety.Invariant.{IsSafe, IsHome, go_local-IsHome}
use beaglewing.Router.Safety.Upkeep.{
  keep_alive-IsSafe, drop_bridge-Safely, reconnect-IsSafe, forget_pending-IsSafe, flush-IsSafe,
}
use beaglewing.Router.Upkeep.{
  is_some, keep_alive, drop_bridge, check_bridge, reconnect, failsafe, forget_pending, flush,
  upkeep,
}
use beaglewing.Common.{
  ltb, Bool-cases, if-cases, ◌>>=◌, ℕ, ◌-◌, ◌<◌, ◌≡◌, refl, ◌∙◌, inl, inr, Bool, true, false, not,
  ◌&&◌, Option, none, some, List, arith,
}

module _ (f : Scalar) (o : IsOrdered f) (zone : Zone)
    (takes : List (Action f) → Command → Bool) where
  -- The function returns, with no capture active.
  abbrev pub Homely : Option (Router f) → Type 0
  Homely none = ⊥
  Homely (some r) = IsHome f o r

  go_local-Homely :
      (r : Router f)
      → AreUsable f o r.space
      → held f r.actions ≡ r.active_id
      → Homely (go_local f zone takes r)
  go_local-Homely r u t = let (r', e, h, b) = go_local-IsHome f o zone takes r u t in rw e h

  drop_bridge-Homely : (r : Router f) → IsSafe f o r → Homely (drop_bridge f zone takes r)
  unfolding drop_bridge held
  drop_bridge-Homely r v = elim (Bool-cases (is_some r.active_id)) [
    | inl e ↦ rw e (
        go_local-Homely (act f (publish no_bridge) (record r { bridge = false })) v.usable
          v.tracked)
    | inr e ↦
        let safe = drop_bridge-Safely f o zone takes r v in
        rw e (inactive-IsHome f o _ (rw e at safe) e)
  ]

  failsafe-Homely : (now : ℕ) (r : Router f) → IsHome f o r → Homely (failsafe f zone takes now r)
  unfolding failsafe
  failsafe-Homely now r h =
      if-cases Homely
        (is_some r.active_id && (not r.events_this_activation && ltb 3000 (now - r.activated_at)))
        (λ _. go_local-Homely r h.safe.usable h.safe.tracked) (λ _. h)

  reconnect-idle :
      (now : ℕ) (connects : Bool) (r : Router f)
      → IsHome f o r
      → (reconnect f zone takes now connects r).active_id ≡ none
  unfolding reconnect
  reconnect-idle now connects r h = ground (arith, h.idle)

  flush-idle :
      (now : ℕ) (r : Router f)
      → r.active_id ≡ none
      → (flush f zone takes now (forget_pending f zone takes r)).active_id ≡ none
  unfolding flush forget_pending
  flush-idle now r h = ground (arith, h)

  last :
      (now : ℕ) (m : Option (Router f))
      → Homely m
      → Homely (do r2 ← m; some (flush f zone takes now (forget_pending f zone takes r2)))
  last now none h = h
  last now (some r) h = record {
    safe = flush-IsSafe f o zone takes now _ (forget_pending-IsSafe f o zone takes r h.safe);
    idle = flush-idle now r h.idle;
  }

  -- what follows on the check of the bridge
  rest-Homely :
      (now : ℕ) (connects : Bool) (m : Option (Router f))
      → Homely m
      → Homely (do
        r1 ← m
        r2 ← failsafe f zone takes now (reconnect f zone takes now connects r1)
        some (flush f zone takes now (forget_pending f zone takes r2)))
  rest-Homely now connects none h = h
  rest-Homely now connects (some r) h =
      let w : IsHome f o (reconnect f zone takes now connects r) = record {
        safe = reconnect-IsSafe f o zone takes now connects r h.safe;
        idle = reconnect-idle now connects r h;
      } in
      last now _ (failsafe-Homely now _ w)

  check_bridge-Homely :
      (now : ℕ) (r : Router f)
      → IsSafe f o r
      → (keep_alive f zone takes now r).1 ≡ true
      → Homely (check_bridge f zone takes now r)
  unfolding check_bridge
  check_bridge-Homely now r v e =
      rw e (drop_bridge-Homely _ (keep_alive-IsSafe f o zone takes now r v))

  keep_alive-dead :
      (now : ℕ) (r : Router f)
      → r.bridge ≡ true
      → 1000 < now - r.last_send
      → takes r.actions keepalive ≡ false
      → (keep_alive f zone takes now r).1 ≡ true
  unfolding keep_alive
  keep_alive-dead now r b late dead =
      let due : (r.bridge && ltb 1000 (now - r.last_send)) ≡ true = ground arith in
      rw (due, dead) refl

  check_bridge-alive :
      (now : ℕ) (r : Router f)
      → (keep_alive f zone takes now r).1 ≡ false
      → check_bridge f zone takes now r ≡ some (keep_alive f zone takes now r).0
  unfolding check_bridge
  check_bridge-alive now r e = rw e refl

  -- When the bridge does not take the keepalive that is due, the same round gives the input back,
  -- before it waits for an event: it does not panic, no capture is active, the portal was called to
  -- release the one that it held, and the state is safe.
  pub upkeep-lost_bridge :
      (now : ℕ) (connects : Bool) (r : Router f)
      → IsSafe f o r
      → r.bridge ≡ true
      → 1000 < now - r.last_send
      → takes r.actions keepalive ≡ false
      → Homely (upkeep f zone takes now connects r)
  unfolding upkeep
  upkeep-lost_bridge now connects r v b late dead =
      rest-Homely now connects (check_bridge f zone takes now r)
        (check_bridge-Homely now r v (keep_alive-dead now r b late dead))

  -- A capture is active, and no event came for more than three seconds since it began.
  unfoldable pub is_void : ℕ → Router f → Bool
  is_void now r =
      is_some r.active_id && (not r.events_this_activation && ltb 3000 (now - r.activated_at))

  reconnect-is_void :
      (now : ℕ) (connects : Bool) (r : Router f)
      → is_void now (reconnect f zone takes now connects r) ≡ is_void now r
  unfolding reconnect is_void
  reconnect-is_void now connects r =
      if-cases (λ z. is_void now z ≡ is_void now r)
        (not r.bridge && ltb 2000 (now - r.last_reconnect))
        (λ _. if-cases (λ z. is_void now z ≡ is_void now r) connects (λ _. refl) (λ _. refl))
        (λ _. refl)

  keep_alive-is_void :
      (now : ℕ) (r : Router f) → is_void now (keep_alive f zone takes now r).0 ≡ is_void now r
  unfolding keep_alive is_void
  keep_alive-is_void now r =
      if-cases (λ (z : Router f × Bool). is_void now z.0 ≡ is_void now r)
        (r.bridge && ltb 1000 (now - r.last_send))
        (λ _.
          if-cases (λ (z : Router f × Bool). is_void now z.0 ≡ is_void now r)
            (is_taken f zone takes keepalive r) (λ _. refl) (λ _. refl))
        (λ _. refl)

  void-Homely :
      (now : ℕ) (r : Router f)
      → IsSafe f o r
      → is_void now r ≡ true
      → Homely (failsafe f zone takes now r)
  unfolding failsafe is_void
  void-Homely now r v e = rw e (go_local-Homely r v.usable v.tracked)

  -- When a capture is active and no event came for more than three seconds since it began, the
  -- round gives the input back before it waits for an event: it does not panic, no capture is
  -- active, the portal was called to release the one that it held, and the state is safe.
  pub upkeep-is_void :
      (now : ℕ) (connects : Bool) (r : Router f)
      → IsSafe f o r
      → is_void now r ≡ true
      → Homely (upkeep f zone takes now connects r)
  unfolding upkeep
  upkeep-is_void now connects r v e = elim (Bool-cases (keep_alive f zone takes now r).1) [
    | inl dead ↦
        rest-Homely now connects (check_bridge f zone takes now r)
          (check_bridge-Homely now r v dead)
    | inr alive ↦ rw (check_bridge-alive now r alive) (
        last now _ (
          void-Homely now _
            (reconnect-IsSafe f o zone takes now connects _
              (keep_alive-IsSafe f o zone takes now r v))
            (reconnect-is_void now connects _ ∙ keep_alive-is_void now r ∙ e)))
  ]

-- ===== src/Router/Safety/Rounds.antt =====
-- Any number of rounds of the main loop keeps the invariant.
use beaglewing.Client.Defs.{Command}
use beaglewing.Geometry.Scalar.{Scalar, IsOrdered}
use beaglewing.Router.Defs.{Zone, Action, Router, Flow, goes, returns, errs, panics, flow}
use beaglewing.Router.Loop.{Turn, turn, run}
use beaglewing.Router.Safety.Handle.{handle-Secure}
use beaglewing.Router.Safety.Secure.{Secure, go_local-Secure}
use beaglewing.Router.Safety.Invariant.{IsSafe}
use beaglewing.Router.Safety.Upkeep.{Safely, upkeep-Safely}
use beaglewing.Router.Upkeep.{upkeep}
use beaglewing.Common.{if-cases, ◌≡◌, refl, ◌⊎◌, inl, inr, Bool, Option, none, some, List, [], ◌∷◌}

module _ (f : Scalar) (o : IsOrdered f) (zone : Zone)
    (takes : List (Action f) → Command → Bool) where
  flow-Secure :
      (next : Router f → Flow f) (m : Option (Router f))
      → Safely f o zone takes m
      → ((r : Router f) → IsSafe f o r → Secure f o (next r))
      → Secure f o (flow f next m)
  flow-Secure next none h k = h
  flow-Secure next (some r) h k = k r h

  turn-Secure : (t : Turn f) (r : Router f) → IsSafe f o r → Secure f o (turn f zone takes t r)
  unfolding turn
  turn-Secure t r v =
      if-cases (Secure f o) t.shutdown
        (λ _. go_local-Secure f o zone takes returns r v.usable v.tracked (λ r' h. h))
        (λ _.
          flow-Secure _ (upkeep f zone takes t.now t.connects r)
            (upkeep-Safely f o zone takes t.now t.connects r v)
            (λ r' w. handle-Secure f o zone takes t.event t.received_at t.portal r' w))

  Flow-cases :
      (x : Flow f)
      → ((r : Router f) × (x ≡ goes r))
        ⊎ (((r : Router f) × (x ≡ returns r)) ⊎ (((r : Router f) × (x ≡ errs r)) ⊎ (x ≡ panics)))
  Flow-cases (goes r) = inl (r, refl)
  Flow-cases (returns r) = inr (inl (r, refl))
  Flow-cases (errs r) = inr (inr (inl (r, refl)))
  Flow-cases panics = inr (inr (inr refl))

  -- From a safe state, any rounds of the loop, with any events, times and answers of the
  -- environment, lead to a safe state, to a return of `Ok` in a safe state with no capture active,
  -- or to a return of `Err`; they never panic.
  pub run-Secure :
      (ts : List (Turn f)) (r : Router f) → IsSafe f o r → Secure f o (run f zone takes ts r)
  unfolding run
  run-Secure [] r v = v
  run-Secure (t ∷ ts) r v = elim (Flow-cases (turn f zone takes t r)) [
    | inl (r', e) ↦ rw (e, run) (run-Secure ts r' (rw e at (turn-Secure t r v)))
    | inr (inl (r', e)) ↦ rw (e, run) (rw e at (turn-Secure t r v))
    | inr (inr (inl (r', e))) ↦ rw (e, run) tt
    | inr (inr (inr e)) ↦ absurd (rw e at (turn-Secure t r v))
  ]

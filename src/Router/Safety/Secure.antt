-- ===== src/Router/Safety/Secure.antt =====
-- What the handling of an event guarantees, and that leaving the remote screen does.
use beaglewing.Geometry.Inside.{AreUsable}
use beaglewing.Geometry.Scalar.{Scalar, IsOrdered}
use beaglewing.Client.Defs.{Command}
use beaglewing.Router.Defs.{held, Zone, Action, Router, Flow, goes, returns, errs, panics, flow}
use beaglewing.Router.Handle.{leave, leave_if_active}
use beaglewing.Router.Local.{go_local}
use beaglewing.Router.Safety.Invariant.{IsSafe, IsHome, go_local-IsHome}
use beaglewing.Router.Upkeep.{is_some}
use beaglewing.Common.{if-cases, ◌≡◌, Bool, false, List, arith}

module _ (f : Scalar) (o : IsOrdered f) where
  -- A round goes on in a safe state, or `run` returns; it returns `Ok` with no capture active.
  abbrev pub Secure : Flow f → Type 0
  Secure (goes r) = IsSafe f o r
  Secure (returns r) = IsHome f o r
  Secure (errs r) = Unit
  Secure panics = ⊥

  pub inactive-IsHome : (r : Router f) → IsSafe f o r → is_some r.active_id ≡ false → IsHome f o r
  inactive-IsHome r v e = record { safe = v; idle = ground arith }

module _ (f : Scalar) (o : IsOrdered f) (zone : Zone)
    (takes : List (Action f) → Command → Bool) where
  pub go_local-Secure :
      (next : Router f → Flow f) (r : Router f)
      → AreUsable f o r.space
      → held f r.actions ≡ r.active_id
      → ((r' : Router f) → IsHome f o r' → Secure f o (next r'))
      → Secure f o (flow f next (go_local f zone takes r))
  go_local-Secure next r u t k =
      let (r', e, h, b) = go_local-IsHome f o zone takes r u t in rw e (k r' h)

  pub leave_if_active-Secure :
      (next : Router f → Flow f) (r : Router f)
      → IsSafe f o r
      → ((r' : Router f) → IsHome f o r' → Secure f o (next r'))
      → Secure f o (leave_if_active f zone takes next r)
  leave_if_active-Secure next r v k =
      if-cases (Secure f o) (is_some r.active_id) (λ _. go_local-Secure next r v.usable v.tracked k)
        (λ e. k r (inactive-IsHome f o r v e))

  pub leave-Secure :
      (r : Router f)
      → AreUsable f o r.space
      → held f r.actions ≡ r.active_id
      → Secure f o (leave f zone takes r)
  leave-Secure r u t = go_local-Secure goes r u t (λ r' h. h.safe)

-- ===== src/Router/Safety/Invariant.antt =====
-- The invariant of the router's state, and the way back to the local screen.
use beaglewing.Client.Defs.{Command}
use beaglewing.Geometry.Inside.{AreUsable, force_local_total}
use beaglewing.Geometry.Scalar.{Scalar, IsOrdered}
use beaglewing.Geometry.Space.{Target, local, remote, Space}
use beaglewing.Router.Defs.{Zone, Action, Router, is_clean, held, ended}
use beaglewing.Router.Local.{go_local, brought_home, give_back, release_bridge}
use beaglewing.Router.Upkeep.{is_some}
use beaglewing.Common.{
  ◌==◌, ℕ, ◌≡◌, refl, sym, ◌∙◌, Bool, true, false, not, ◌||◌, Option, none, some, List, arith,
}

abbrev pub target_of : Bool → Target
target_of true = remote
target_of false = local

module _ (f : Scalar) (o : IsOrdered f) where
  -- While a capture is active the bridge is connected and the cursor is on the remote screen.
  -- Without one the cursor is local, no button counts as held, and if the bridge is connected then
  -- no message that holds a key or a button was tried after the last attempt to send RELEASE_ALL.
  -- The capture that the portal still holds, if any, is the one that is active.
  pub record IsSafe (r : Router f) : Type 0 where
    pub connected : (not (is_some r.active_id) || r.bridge) ≡ true
    pub screen : r.space.target ≡ target_of (is_some r.active_id)
    pub clean : (is_some r.active_id || (not r.bridge || is_clean f r.actions)) ≡ true
    pub no_buttons : (is_some r.active_id || r.buttons == 0) ≡ true
    pub usable : AreUsable f o r.space
    pub tracked : held f r.actions ≡ r.active_id

  -- The same, and no capture is active.
  pub record IsHome (r : Router f) : Type 0 where
    pub safe : IsSafe r
    pub idle : r.active_id ≡ none

module _ (f : Scalar) (o : IsOrdered f) (zone : Zone)
    (takes : List (Action f) → Command → Bool) where
  ended_same : (id : ℕ) → ended f id (some id) ≡ none
  unfolding ended
  ended_same id = let same : (id == id) ≡ true = ground arith in rw same refl

  release_bridge-held :
      (r : Router f)
      → (held f (release_bridge f zone takes r).actions ≡ held f r.actions)
        × ((release_bridge f zone takes r).active_id ≡ r.active_id)
  unfolding release_bridge held
  release_bridge-held r = ground arith

  give_back-held :
      (a : Option ℕ) (r : Router f)
      → r.active_id ≡ a
      → held f r.actions ≡ a
      → held f (give_back f zone takes a r).actions ≡ (give_back f zone takes a r).active_id
  unfolding give_back held
  give_back-held none r e h = h ∙ sym e
  give_back-held (some id) r e h = rw h (ended_same id)

  -- The capture is released.
  brought_home-held :
      (s : Space f) (r : Router f)
      → held f r.actions ≡ r.active_id
      → held f (brought_home f zone takes s r).actions ≡ (brought_home f zone takes s r).active_id
  unfolding brought_home held
  brought_home-held s r h =
      let (e, k) = release_bridge-held r in
      give_back-held r.active_id (record (release_bridge f zone takes r) { buttons = 0; space = s })
        k (e ∙ h)

  brought_home-IsHome :
      (s : Space f) (r : Router f)
      → AreUsable f o s
      → s.target ≡ local
      → held f r.actions ≡ r.active_id
      → IsHome f o (brought_home f zone takes s r)
        × ((brought_home f zone takes s r).bridge ≡ r.bridge)
  unfolding brought_home is_clean
  brought_home-IsHome s r v t h = (
    record {
      safe = record {
        connected = ground arith;
        screen = ground arith;
        clean = ground arith;
        no_buttons = ground arith;
        usable = ground arith;
        tracked = brought_home-held s r h;
      };
      idle = ground arith;
    },
    ground arith,
  )

  -- The way to the local screen, from a state with usable screens in which the capture that the
  -- portal still holds is the active one, ends in a safe state with no capture: the portal was called
  -- to release it, and if the bridge is connected then RELEASE_ALL was tried, whether or not the write
  -- succeeded, after the last message that holds a key or a button. The connection is left as it is.
  pub go_local-IsHome :
      (r : Router f)
      → AreUsable f o r.space
      → held f r.actions ≡ r.active_id
      → (r' : Router f) × (go_local f zone takes r ≡ some r')
        × IsHome f o r'
        × (r'.bridge ≡ r.bridge)
  unfolding go_local
  go_local-IsHome r u q =
      let (s, e, v, t) = force_local_total f o r.space u in
      let (h, b) = brought_home-IsHome s r v t q in (brought_home f zone takes s r, rw e, h, b)

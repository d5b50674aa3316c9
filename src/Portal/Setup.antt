-- ===== src/Portal/Setup.antt =====
-- linux/input-router/src/router.rs: what `run` does with the portal before its loop.
-- `Answers` is what the portal answers to it. The threads that it starts are in Signals.
pub mod Counts
pub mod Session
pub mod Consent
use beaglewing.Common.Bytes.{Bytes}
use beaglewing.Geometry.Scalar.{Scalar}
use beaglewing.Portal.Defs.{
  bus, no_zone, all_rejected, Answer, ok, err, connect_to_eis, enable, InputCapture, Asked,
}
use beaglewing.Portal.Requests.{Created, new, start_session, zones_of, set_barrier, call}
use beaglewing.Router.Barriers.{Position, candidates}
use beaglewing.Router.Defs.{Zone}
use beaglewing.Common.{if◌then◌else◌, ℕ, Bool, Option, List, [], ◌∷◌}

module _ (f : Scalar) where
  -- `consent` is for CreateSession, which portals of version 1 have, and `token` is the saved one.
  pub record Answers : Type 0 where
    pub create : Created f
    pub consent : Asked f
    pub token : Option Bytes
    pub start : Asked f
    pub eis : Bool
    pub zones : Asked f
    pub barrier : Position → Asked f
    pub subscribes : Bool
    pub enables : Bool

  -- `?`
  unfoldable pub and_then :
      {A B : Type 0}
      → InputCapture f × Answer A
      → (A → InputCapture f → InputCapture f × Answer B)
      → InputCapture f × Answer B
  and_then (p, err e) next = (p, err e)
  and_then (p, ok a) next = next a p

  module _ (valid : Bytes → Bool) (show : ℕ → Bytes) (prefix : Bytes) (w : Answers) where
    -- A barrier that was not placed is tried at the next position.
    unfoldable pub unless_placed :
        Zone
        → (InputCapture f → InputCapture f × Answer Zone)
        → List ℕ
        → InputCapture f
        → InputCapture f × Answer Zone
    unless_placed z next [] p = (p, ok z)
    unless_placed z next (id ∷ ids) p = next p

    -- The loop over the candidates.
    unfoldable pub place : Zone → ℕ → List Position → InputCapture f → InputCapture f × Answer Zone
    unfolding and_then unless_placed
    place z set [] p = (p, err all_rejected)
    place z set (pos ∷ ps) p =
        and_then (set_barrier f valid show prefix 1 pos set (w.barrier pos) p)
          (unless_placed z (λ q. place z set ps q))

    unfoldable pub arm : List Zone × ℕ → InputCapture f → InputCapture f × Answer Zone
    unfolding place
    arm ([], set) p = (p, err no_zone)
    arm (z ∷ zs, set) p = place z set (candidates z) p

    unfoldable pub finish : Zone → InputCapture f → InputCapture f × Answer Zone
    unfolding and_then
    finish z p =
        if w.subscribes
        then and_then (call f enable w.enables p) (λ _ q. (q, ok z))
        else (p, err bus)

    unfoldable pub prepare : InputCapture f → InputCapture f × Answer Zone
    unfolding and_then arm finish
    prepare p =
        and_then (call f connect_to_eis w.eis p)
          (λ _ q. and_then (and_then (zones_of f valid show prefix w.zones q) arm) finish)

    unfoldable pub set_up : InputCapture f × Answer Zone
    unfolding and_then prepare
    set_up =
        and_then (new f valid show prefix w.create w.consent)
          (λ _ p. and_then (start_session f valid show prefix w.token w.start p) (λ _ q. prepare q))

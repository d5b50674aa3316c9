-- ===== src/Portal/Setup/Consent.antt =====
-- linux/input-router/src/router.rs: the set-up places a barrier and enables capture last.
use beaglewing.Portal.Setup.Counts.{
  dialogs, enabled, IsStep, stopped, went, and_then_carries, IsStarted, cons-IsStarted, settled,
  asked-IsStep, checked_ok, checked-IsAsked, request-IsAsked,
}
use beaglewing.Portal.Setup.Session.{IsAllowed, IsNew, new-IsStep, start_session-IsStep}
use beaglewing.Common.Bytes.{Bytes}
use beaglewing.Geometry.Scalar.{Scalar}
use beaglewing.Portal.Defs.{
  PortalError, bus, no_zone, all_rejected, Answer, ok, err, connect_to_eis, get_zones, enable,
  set_pointer_barriers, InputCapture, Vardict, request, failed_barriers,
}
use beaglewing.Portal.Requests.{failed_in, listed, rejected, call, zones_of, set_barrier}
use beaglewing.Portal.Setup.{Answers, and_then, unless_placed, place, arm, finish, prepare, set_up}
use beaglewing.Router.Barriers.{Position, candidates}
use beaglewing.Router.Defs.{Zone}
use beaglewing.Common.{
  if-cases, set, ℕ, ◌≤◌, ◌≡◌, refl, sym, ap, ◌∙◌, Bool, List, [], ◌∷◌, ◌++◌, append_assoc, arith,
}

module _ (f : Scalar) where
  module _ (valid : Bytes → Bool) (show : ℕ → Bytes) (prefix : Bytes) where
    module _ (w : Answers f) where
      -- A barrier stands at one of the positions: it was asked for last, and the portal's answer to
      -- that has the code 0 and lists no barrier as failed.
      pub record IsPlaced (z : Zone) (p : InputCapture f) : Type 0 where
        position : Position
        skipped : List Position
        later : List Position
        candidate : candidates z ≡ skipped ++ (position ∷ later)
        set : ℕ
        earlier : InputCapture f
        last : p.calls ≡ set_pointer_barriers 1 position set ∷ earlier.calls
        results : Vardict f
        answered :
            (request f show prefix
              (set_pointer_barriers 1 position set)
              (w.barrier position)
              earlier).1
            ≡ ok (0, results)
        none_failed : failed_in f (results failed_barriers) ≡ []
        unarmed : IsStarted f p

      unless_placed-IsStep :
          (z : Zone) (pos : Position) (skipped later : List Position) (set : ℕ)
          (p q : InputCapture f)
          → (next : InputCapture f → InputCapture f × Answer Zone) → (ids : List ℕ)
          → candidates z ≡ skipped ++ (pos ∷ later)
          → IsStarted f q
          → q.calls ≡ set_pointer_barriers 1 pos set ∷ p.calls
          → (results : Vardict f)
          → (request f show prefix (set_pointer_barriers 1 pos set) (w.barrier pos) p).1
            ≡ ok (0, results)
          → failed_in f (results failed_barriers) ≡ ids
          → IsStep f IsPlaced (next q)
          → IsStep f IsPlaced (unless_placed f valid show prefix w z next ids q)
      unfolding unless_placed
      unless_placed-IsStep z pos skipped later set p q next [] c s e results a n rest =
          went q z (record {
            position = pos;
            skipped = skipped;
            later = later;
            candidate = c;
            set = set;
            earlier = p;
            last = e;
            results = results;
            answered = a;
            none_failed = n;
            unarmed = s;
          })
      unless_placed-IsStep z pos skipped later set p q next (i ∷ is) c s e results a n rest = rest

      ok_same : {xs ys : List ℕ} → ok xs ≡ ok ys → xs ≡ ys
      ok_same h = ap ids_of h
        where
          ids_of : Answer (List ℕ) → List ℕ
          ids_of (ok ids) = ids
          ids_of (err e) = []

      place-IsStep :
          (z : Zone) (set : ℕ) (skipped ps : List Position) (p : InputCapture f)
          → candidates z ≡ skipped ++ ps
          → IsStarted f p
          → IsStep f IsPlaced (place f valid show prefix w z set ps p)
      unfolding place set_barrier rejected
      place-IsStep z set skipped [] p c s = stopped p all_rejected (omega (arith, s.once)) s.unarmed
      place-IsStep z set skipped (pos ∷ ps) p c s =
          and_then_carries f _ (IsStep f IsPlaced) _ stopped
            (λ ids q g.
              let raw = request f show prefix (set_pointer_barriers 1 pos set) (w.barrier pos) p in
              let (results, answer, failed) = checked_ok f (rejected f) (λ e. refl) raw ids g.1.1 in
              unless_placed-IsStep z pos skipped ps set p q _ ids c g.0 g.1.0 results answer
                (ok_same failed)
                (place-IsStep z set (skipped ++ (pos ∷ [])) ps q
                  (c ∙ sym (append_assoc skipped (pos ∷ []) ps)) g.0))
            _
            (asked-IsStep f (set_pointer_barriers 1 pos set) p refl refl s _ (
              checked-IsAsked f (rejected f) (λ e. refl) _ p _
                (request-IsAsked f valid show prefix _ (w.barrier pos) p)))

      arm-IsStep :
          (zs : List Zone) (set : ℕ) (p : InputCapture f)
          → IsStarted f p
          → IsStep f IsPlaced (arm f valid show prefix w (zs, set) p)
      unfolding arm
      arm-IsStep [] set p s = stopped p no_zone (omega (arith, s.once)) s.unarmed
      arm-IsStep (z ∷ zs) set p s = place-IsStep z set [] (candidates z) p refl s

      -- Capture is enabled last, once the user allowed it and a barrier stands; or that failed, or an
      -- error before it ended the set-up with nothing enabled and the user asked at most once.
      pub data IsSetUp : InputCapture f × Answer Zone → Type 0 where
        armed :
            (p : InputCapture f) (z : Zone)
            → IsAllowed f valid show prefix w
            → IsPlaced z p
            → IsSetUp (record p { calls = enable ∷ p.calls }, ok z)
        refuses :
            (p : InputCapture f) (z : Zone) (e : PortalError)
            → IsAllowed f valid show prefix w
            → IsPlaced z p
            → IsSetUp (record p { calls = enable ∷ p.calls }, err e)
        gives_up :
            (p : InputCapture f) (e : PortalError)
            → dialogs f p ≤ 1
            → enabled f p ≡ 0
            → IsSetUp (p, err e)

      enable-IsSetUp :
          (z : Zone) (p : InputCapture f) (r : Answer (Unit {0}))
          → IsAllowed f valid show prefix w
          → IsPlaced z p
          → IsSetUp (and_then f (record p { calls = enable ∷ p.calls }, r) (λ _ q. (q, ok z)))
      unfolding and_then
      enable-IsSetUp z p (ok _) al i = armed p z al i
      enable-IsSetUp z p (err e) al i = refuses p z e al i

      finish-IsSetUp :
          (al : IsAllowed f valid show prefix w) (z : Zone) (p : InputCapture f)
          → IsPlaced z p
          → IsSetUp (finish f valid show prefix w z p)
      unfolding finish call
      finish-IsSetUp al z p i =
          if-cases IsSetUp w.subscribes (λ _. enable-IsSetUp z p _ al i)
            (λ _. gives_up p bus (omega (arith, i.unarmed.once)) i.unarmed.unarmed)

      eis-IsStep :
          (p : InputCapture f)
          → IsStarted f p
          → IsStep f (λ _. IsStarted f) (call f connect_to_eis w.eis p)
      unfolding call
      eis-IsStep p s =
          let q : InputCapture f = record p { calls = connect_to_eis ∷ p.calls } in
          settled f q _ (cons-IsStarted f connect_to_eis p q refl refl refl s)

      prepare-IsSetUp :
          (p : InputCapture f)
          → IsStarted f p × IsAllowed f valid show prefix w
          → IsSetUp (prepare f valid show prefix w p)
      unfolding prepare zones_of listed
      prepare-IsSetUp p (s, al) =
          and_then_carries f (λ _. IsStarted f) IsSetUp _ gives_up
            (λ _ q t. and_then_carries f IsPlaced IsSetUp _ gives_up (finish-IsSetUp al) _ (
              and_then_carries f _ (IsStep f IsPlaced) _ stopped (λ a r g. arm-IsStep a.0 a.1 r g.0)
                _
                (asked-IsStep f get_zones q refl refl t _ (
                  checked-IsAsked f (listed f) (λ e. refl) _ q _
                    (request-IsAsked f valid show prefix _ w.zones q)))))
            (call f connect_to_eis w.eis p) (eis-IsStep p s)

      -- The set-up enables capture last, after the user was asked exactly once and allowed it (the
      -- portal's response to the call that shows the dialog has the code 0), and after the portal
      -- accepted a barrier at one of the right edge's three positions; only then does it return a
      -- zone, and that is the one the barrier is for. If it ends with an error before, nothing was
      -- enabled, and the user was asked at most once.
      pub set_up-IsSetUp : IsSetUp (set_up f valid show prefix w)
      unfolding set_up
      set_up-IsSetUp =
          and_then_carries f (IsNew f valid show prefix w) IsSetUp _ gives_up
            (λ _ p i.
              and_then_carries f (λ _ q. IsStarted f q × IsAllowed f valid show prefix w) IsSetUp _
                gives_up (λ _ q s. prepare-IsSetUp q s) _
                (start_session-IsStep f valid show prefix w p i))
            _ (new-IsStep f valid show prefix w w.create)

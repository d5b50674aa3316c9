-- ===== src/Portal/Setup/Session.antt =====
-- linux/input-router/src/portal.rs: `new` and `start` make a session that the user allowed.
use beaglewing.Portal.Setup.Counts.{
  asks, enables_capture, count, dialogs, enabled, IsAsked, asked, unasked, IsStep, stopped, went,
  IsStarted, count_cons, IsOpened, opened_once, checked-IsAsked, checked_ok, request-IsAsked,
}
use beaglewing.Common.Bytes.{Bytes}
use beaglewing.Geometry.Scalar.{Scalar}
use beaglewing.Portal.Defs.{
  session_handle, bus, Answer, ok, err, create_session_2, create_session, start, InputCapture,
  Vardict, request, vardict_object_path,
}
use beaglewing.Portal.Requests.{
  checked, Created, created, unknown_method, other_error, placeholder, started, with_session,
  opened, create_v1, new, start_session,
}
use beaglewing.Portal.Setup.{Answers}
use beaglewing.Common.{
  if-cases, ℕ, ◌≡◌, refl, ap, ◌∙◌, inl, inr, Bool, false, Option, none, some, [], ◌∷◌, arith,
}

module _ (f : Scalar) where
  module _ (valid : Bytes → Bool) (show : ℕ → Bytes) (prefix : Bytes) where
    module _ (w : Answers f) where
      -- The portal answered the call that shows the dialog with the code 0: the user allowed it.
      pub data IsAllowed : Type 0 where
        by_create :
            (p : InputCapture f) (results : Vardict f)
            → (request f show prefix create_session w.consent p).1 ≡ ok (0, results)
            → IsAllowed
        by_start :
            (p : InputCapture f) (results : Vardict f)
            → (request f show prefix (start w.token) w.start p).1 ≡ ok (0, results)
            → IsAllowed

      -- With version 1 of the portal, the user allowed it already.
      abbrev pub IsNew : Unit {0} → InputCapture f → Type 0
      IsNew _ p = IsOpened f p × (p.v2 ≡ false → IsAllowed)

      with_session-IsStep :
          (o : Option Bytes) (p : InputCapture f)
          → IsNew tt p
          → IsStep f IsNew (with_session f valid show prefix o p)
      unfolding with_session
      with_session-IsStep none p (i, a) = stopped p _ (opened_once f p i) i.unarmed
      with_session-IsStep (some h) p (i, a) =
          went _ tt (record { dialog = i.dialog; unarmed = i.unarmed }, a)

      opened-IsStep :
          (p : InputCapture f) (r : Answer (Vardict f))
          → IsOpened f p
          → (p.v2 ≡ false → (results : Vardict f) → r ≡ ok results → IsAllowed)
          → IsStep f IsNew (opened f valid show prefix (p, r))
      unfolding opened
      opened-IsStep p (err e) i a = stopped p e (opened_once f p i) i.unarmed
      opened-IsStep p (ok results) i a =
          with_session-IsStep (vardict_object_path f valid (results session_handle)) p
            (i, λ v. a v results refl)

      v1-IsStep :
          (p : InputCapture f)
          → p.v2 ≡ false
          → dialogs f p ≡ 0
          → enabled f p ≡ 0
          → (o : InputCapture f × Answer (Vardict f))
          → ((results : Vardict f) → o.1 ≡ ok results → IsAllowed)
          → IsAsked f create_session p o
          → IsStep f IsNew (opened f valid show prefix o)
      unfolding opened count
      v1-IsStep p v d n (q, r) a (asked _ _ e k) =
          opened-IsStep q r
            (record {
              dialog = inr (k ∙ v, count_cons f (asks f) 1 0 create_session p q e refl d);
              unarmed = count_cons f (enables_capture f) 0 0 create_session p q e refl n;
            })
            (λ _. a)
      v1-IsStep p v d n (q, err x) a (unasked _ _ e k) =
          stopped q x (omega (arith, ap (count f (asks f)) e, d))
            (ap (count f (enables_capture f)) e ∙ n)

      pub new-IsStep : (c : Created f) → IsStep f IsNew (new f valid show prefix c w.consent)
      unfolding new count create_v1
      new-IsStep (created (some results)) =
          opened-IsStep _ (ok results) (record { dialog = inl (refl, refl); unarmed = refl })
            (λ v. absurd (cc))
      new-IsStep (created none) = stopped _ bus (omega arith) refl
      new-IsStep unknown_method =
          let p : InputCapture f = record (placeholder f) {
            calls = create_session_2 ∷ [];
            v2 = false;
          } in
          let o = request f show prefix create_session w.consent p in
          v1-IsStep p refl refl refl (checked f (λ r. r) o)
            (λ results e.
              let (found, answer, _) = checked_ok f (λ r. r) (λ x. refl) o results e in
              by_create p found answer)
            (checked-IsAsked f (λ r. r) (λ e. refl) create_session _ _
              (request-IsAsked f valid show prefix create_session w.consent _))
      new-IsStep other_error = stopped _ bus (omega arith) refl

      v2-IsStep :
          {A : Type 0} (p : InputCapture f)
          → dialogs f p ≡ 0
          → enabled f p ≡ 0
          → (o : InputCapture f × Answer A) → ((x : A) → o.1 ≡ ok x → IsAllowed)
          → IsAsked f (start w.token) p o
          → IsStep f (λ _ q. IsStarted f q × IsAllowed) o
      unfolding count
      v2-IsStep p d n (q, ok x) a (asked _ _ e k) = went q x (
        record {
          once = count_cons f (asks f) 1 0 (start w.token) p q e refl d;
          unarmed = count_cons f (enables_capture f) 0 0 (start w.token) p q e refl n;
        },
        a x refl,
      )
      v2-IsStep p d n (q, err x) a (asked _ _ e k) =
          stopped q x (omega (arith, count_cons f (asks f) 1 0 (start w.token) p q e refl d))
            (count_cons f (enables_capture f) 0 0 (start w.token) p q e refl n)
      v2-IsStep p d n (q, err x) a (unasked _ _ e k) =
          stopped q x (omega (arith, ap (count f (asks f)) e, d))
            (ap (count f (enables_capture f)) e ∙ n)

      pub start_session-IsStep :
          (p : InputCapture f)
          → IsNew tt p
          → IsStep f
              (λ _ q. IsStarted f q × IsAllowed)
              (start_session f valid show prefix w.token w.start p)
      unfolding start_session started
      start_session-IsStep p (i, a) =
          let o = request f show prefix (start w.token) w.start p in
          if-cases (IsStep f (λ _ q. IsStarted f q × IsAllowed)) p.v2
            (λ v.
              v2-IsStep p (elim i.dialog [ inl h ↦ h.1 | inr h ↦ absurd (cc) ]) i.unarmed
                (checked f (started f) o)
                (λ x e.
                  let (found, answer, _) = checked_ok f (started f) (λ y. refl) o x e in
                  by_start p found answer)
                (checked-IsAsked f (started f) (λ e. refl) (start w.token) p o
                  (request-IsAsked f valid show prefix (start w.token) w.start p)))
            (λ v. went p _ (
              record {
                once = elim i.dialog [ inl h ↦ absurd (cc) | inr h ↦ h.1 ];
                unarmed = i.unarmed;
              },
              a v,
            ))

-- ===== src/Portal/Signals/Own.antt =====
-- linux/input-router/src/portal.rs: which signals the router is told of.
use beaglewing.Common.Bytes.{Bytes}
use beaglewing.Geometry.Scalar.{Scalar}
use beaglewing.Portal.Defs.{Vardict, same_bytes}
use beaglewing.Portal.Signals.{Signal, signal_event, forward_signals}
use beaglewing.Router.Defs.{Event}
use beaglewing.Common.{
  ◌==◌, if◌then◌else◌, ==_iff, Bool-cases, if-cases, ℕ, ◌≡◌, refl, sym, ap, ◌∙◌, ◌≢◌, inl, inr,
  Bool, true, false, Option, none, some, List, [], ◌∷◌, ◌++◌, append-nil, append_assoc,
}

module _ (f : Scalar) (takes : List (Event f) → Bool) where
  -- The events for the messages that name the session.
  pub data IsOwn (session : Bytes) (name : Signal)
      : List (Option (Bytes × Vardict f)) → List (Event f) → Type 0 where
    no_more : IsOwn session name [] []
    malformed :
        (ms : List (Option (Bytes × Vardict f))) (es : List (Event f))
        → IsOwn session name ms es
        → IsOwn session name (none ∷ ms) es
    foreign :
        (handle : Bytes) (opts : Vardict f) (ms : List (Option (Bytes × Vardict f)))
        → (es : List (Event f)) → handle ≢ session
        → IsOwn session name ms es
        → IsOwn session name (some (handle, opts) ∷ ms) es
    own :
        (handle : Bytes) (opts : Vardict f) (ms : List (Option (Bytes × Vardict f)))
        → (es : List (Event f)) → handle ≡ session
        → IsOwn session name ms es
        → IsOwn session name (some (handle, opts) ∷ ms) (signal_event f name opts ∷ es)

  -- What was sent before, then all those events, or those up to the one that was lost as the router
  -- was gone.
  pub data IsForwarded (session : Bytes) (name : Signal) (ms : List (Option (Bytes × Vardict f)))
      (sent out : List (Event f)) : Type 0 where
    forwarded :
        (es : List (Event f))
        → IsOwn session name ms es
        → out ≡ sent ++ es
        → IsForwarded session name ms sent out
    lost :
        (es : List (Event f)) (e : Event f) (rest : List (Event f))
        → IsOwn session name ms (es ++ (e ∷ rest))
        → out ≡ sent ++ es
        → takes out ≡ false
        → IsForwarded session name ms sent out

  heads : (a b : ℕ) (r : Bool) → (if a == b then r else false) ≡ true → (a ≡ b) × (r ≡ true)
  heads a b r h = elim (Bool-cases (a == b)) [
    | inl e ↦ ((==_iff a b).0 e, sym (rw e refl) ∙ h)
    | inr e ↦ let no : false ≡ true = sym (rw e refl) ∙ h in absurd (cc)
  ]

  same_bytes_sound : (xs ys : Bytes) → same_bytes xs ys ≡ true → xs ≡ ys
  unfolding same_bytes
  same_bytes_sound [] [] h = refl
  same_bytes_sound [] (b ∷ ys) h = absurd (cc)
  same_bytes_sound (a ∷ xs) [] h = absurd (cc)
  same_bytes_sound (a ∷ xs) (b ∷ ys) h =
      let r = heads a b (same_bytes xs ys) h in
      ap (λ z. z ∷ xs) r.0 ∙ ap (λ z. b ∷ z) (same_bytes_sound xs ys r.1)

  same_bytes_refl : (xs : Bytes) → same_bytes xs xs ≡ true
  unfolding same_bytes
  same_bytes_refl [] = refl
  same_bytes_refl (a ∷ xs) = rw ((==_iff a a).1 refl) (same_bytes_refl xs)

  same_bytes_complete : (xs ys : Bytes) → same_bytes xs ys ≡ false → xs ≢ ys
  same_bytes_complete xs ys h e =
      let same = ap (λ z. same_bytes z ys) e ∙ same_bytes_refl ys in absurd (cc)

  skipped-IsForwarded :
      (session handle : Bytes) (name : Signal) (opts : Vardict f)
      → (ms : List (Option (Bytes × Vardict f))) (sent out : List (Event f)) → handle ≢ session
      → IsForwarded session name ms sent out
      → IsForwarded session name (some (handle, opts) ∷ ms) sent out
  skipped-IsForwarded session handle name opts ms sent out n (forwarded es i e) =
      forwarded es (foreign handle opts ms es n i) e
  skipped-IsForwarded session handle name opts ms sent out n (lost es x rest i e g) =
      lost es x rest (foreign handle opts ms _ n i) e g

  passed-IsForwarded :
      (session handle : Bytes) (name : Signal) (opts : Vardict f)
      → (ms : List (Option (Bytes × Vardict f))) (sent out : List (Event f)) → handle ≡ session
      → IsForwarded session name ms (sent ++ (signal_event f name opts ∷ [])) out
      → IsForwarded session name (some (handle, opts) ∷ ms) sent out
  passed-IsForwarded session handle name opts ms sent out n (forwarded es i e) =
      let ev = signal_event f name opts in
      forwarded (ev ∷ es) (own handle opts ms es n i) (e ∙ append_assoc sent (ev ∷ []) es)
  passed-IsForwarded session handle name opts ms sent out n (lost es x rest i e g) =
      let ev = signal_event f name opts in
      lost (ev ∷ es) x rest (own handle opts ms _ n i) (e ∙ append_assoc sent (ev ∷ []) es) g

  malformed-IsForwarded :
      (session : Bytes) (name : Signal)
      → (ms : List (Option (Bytes × Vardict f))) (sent out : List (Event f))
      → IsForwarded session name ms sent out
      → IsForwarded session name (none ∷ ms) sent out
  malformed-IsForwarded session name ms sent out (forwarded es i e) =
      forwarded es (malformed ms es i) e
  malformed-IsForwarded session name ms sent out (lost es x rest i e g) =
      lost es x rest (malformed ms _ i) e g

  own_events :
      (session : Bytes) (name : Signal) (ms : List (Option (Bytes × Vardict f)))
      → (es : List (Event f)) × IsOwn session name ms es
  own_events session name [] = ([], no_more)
  own_events session name (none ∷ ms) =
      let r = own_events session name ms in (r.0, malformed ms r.0 r.1)
  own_events session name (some (handle, opts) ∷ ms) =
      let r = own_events session name ms in
      elim (Bool-cases (same_bytes handle session)) [
        | inl s ↦ (_, own handle opts ms r.0 (same_bytes_sound handle session s) r.1)
        | inr s ↦ (r.0, foreign handle opts ms r.0 (same_bytes_complete handle session s) r.1)
      ]

  -- The thread of a signal sends the router one event for each message that names the session of
  -- the router, in the order of the messages, with the default 0 for what a message lacks, and none
  -- for other messages. It stops at the first event that the router, gone by then, does not take.
  pub forward_signals-IsForwarded :
      (session : Bytes) (name : Signal) (ms : List (Option (Bytes × Vardict f)))
      → (sent : List (Event f))
      → IsForwarded session name ms sent (forward_signals f takes session name ms sent)
  unfolding forward_signals
  forward_signals-IsForwarded session name [] sent = forwarded [] no_more (sym (append-nil sent))
  forward_signals-IsForwarded session name (none ∷ ms) sent =
      malformed-IsForwarded session name ms sent _
        (forward_signals-IsForwarded session name ms sent)
  forward_signals-IsForwarded session name (some (handle, opts) ∷ ms) sent =
      let rest = own_events session name ms in
      if-cases (IsForwarded session name (some (handle, opts) ∷ ms) sent)
        (same_bytes handle session)
        (λ s.
          let e = same_bytes_sound handle session s in
          if-cases (IsForwarded session name (some (handle, opts) ∷ ms) sent) (takes sent)
            (λ _. passed-IsForwarded session handle name opts ms sent _ e (
              forward_signals-IsForwarded session name ms
                (sent ++ (signal_event f name opts ∷ []))))
            (λ g.
              lost [] (signal_event f name opts) rest.0 (own handle opts ms rest.0 e rest.1)
                (sym (append-nil sent)) g))
        (λ s.
          skipped-IsForwarded session handle name opts ms sent _
            (same_bytes_complete handle session s)
            (forward_signals-IsForwarded session name ms sent))

-- ===== src/Portal/Setup/Counts.antt =====
-- The calls during the set-up, counted: what one step of it does to them.
use beaglewing.Common.Bytes.{Bytes}
use beaglewing.Geometry.Scalar.{Scalar}
use beaglewing.Portal.Defs.{
  PortalError, bus, refused, Answer, ok, err, Call, create_session, enable, start, InputCapture,
  Asked, Vardict, request, called,
}
use beaglewing.Portal.Requests.{granted, checked}
use beaglewing.Portal.Setup.{and_then}
use beaglewing.Common.{
  ◌==◌, ==_iff, Bool-cases, ℕ, ◌+◌, ◌%◌, ◌^◌, ◌≤◌, ◌≡◌, refl, sym, ap, ◌∙◌, ◌⊎◌, inl, inr, Bool,
  true, false, Option, none, some, List, [], ◌∷◌, arith,
}

module _ (f : Scalar) where
  -- The calls that show the consent dialog.
  abbrev pub asks : Call f → ℕ
  asks create_session = 1
  asks (start token) = 1
  asks c = 0

  abbrev pub enables_capture : Call f → ℕ
  enables_capture enable = 1
  enables_capture c = 0

  unfoldable pub count : (Call f → ℕ) → List (Call f) → ℕ
  count g [] = 0
  count g (c ∷ cs) = g c + count g cs

  abbrev pub dialogs : InputCapture f → ℕ
  dialogs p = count asks p.calls

  abbrev pub enabled : InputCapture f → ℕ
  enabled p = count enables_capture p.calls

  -- A request makes the call or, on an error before it, nothing.
  pub data IsAsked {A : Type 0} (c : Call f) (p : InputCapture f)
      : InputCapture f × Answer A → Type 0 where
    asked :
        (q : InputCapture f) (r : Answer A)
        → q.calls ≡ c ∷ p.calls
        → q.v2 ≡ p.v2
        → IsAsked c p (q, r)
    unasked :
        (q : InputCapture f) (e : PortalError)
        → q.calls ≡ p.calls
        → q.v2 ≡ p.v2
        → IsAsked c p (q, err e)

  -- A step of the set-up: an error after which nothing is enabled, or a result.
  pub data IsStep {A : Type 0} (Good : A → InputCapture f → Type 0)
      : InputCapture f × Answer A → Type 0 where
    stopped :
        (p : InputCapture f) (e : PortalError)
        → dialogs p ≤ 1
        → enabled p ≡ 0
        → IsStep Good (p, err e)
    went : (p : InputCapture f) (a : A) → Good a p → IsStep Good (p, ok a)

  pub and_then_carries :
      {A B : Type 0} (Good : A → InputCapture f → Type 0) (P : InputCapture f × Answer B → Type 0)
      → (next : A → InputCapture f → InputCapture f × Answer B)
      → ((p : InputCapture f) (e : PortalError) → dialogs p ≤ 1 → enabled p ≡ 0 → P (p, err e))
      → ((a : A) (p : InputCapture f) → Good a p → P (next a p))
      → (o : InputCapture f × Answer A) → IsStep Good o
      → P (and_then f o next)
  unfolding and_then
  and_then_carries Good P next stop h (p, err e) (stopped _ _ d n) = stop p e d n
  and_then_carries Good P next stop h (p, ok a) (went _ _ g) = h a p g

  -- The user was asked once, and nothing is enabled.
  pub record IsStarted (p : InputCapture f) : Type 0 where
    pub once : dialogs p ≡ 1
    pub unarmed : enabled p ≡ 0

  -- What a call adds to a count.
  pub count_cons :
      (g : Call f → ℕ) (n m : ℕ) (c : Call f) (p q : InputCapture f)
      → q.calls ≡ c ∷ p.calls
      → g c ≡ n
      → count g p.calls ≡ m
      → count g q.calls ≡ n + m
  unfolding count
  count_cons g n m c p q e a b = rw (e, a, b) refl

  pub cons-IsStarted :
      (c : Call f) (p q : InputCapture f)
      → asks c ≡ 0
      → enables_capture c ≡ 0
      → q.calls ≡ c ∷ p.calls
      → IsStarted p
      → IsStarted q
  cons-IsStarted c p q a b e s = record {
    once = count_cons asks 0 1 c p q e a s.once;
    unarmed = count_cons enables_capture 0 0 c p q e b s.unarmed;
  }

  pub settled :
      {A : Type 0} (p : InputCapture f) (r : Answer A)
      → IsStarted p
      → IsStep (λ _. IsStarted) (p, r)
  settled p (ok a) s = went p a s
  settled p (err e) s = stopped p e (omega (arith, s.once)) s.unarmed

  -- A request of a session that the user allowed.
  pub asked-IsStep :
      {A : Type 0} (c : Call f) (p : InputCapture f)
      → asks c ≡ 0
      → enables_capture c ≡ 0
      → IsStarted p
      → (o : InputCapture f × Answer A) → IsAsked c p o
      → IsStep (λ a q. IsStarted q × ((q.calls ≡ c ∷ p.calls) × (o.1 ≡ ok a))) o
  asked-IsStep c p a b s (q, ok x) (asked _ _ e v) =
      went q x (cons-IsStarted c p q a b e s, (e, refl))
  asked-IsStep c p a b s (q, err x) (asked _ _ e v) =
      let t = cons-IsStarted c p q a b e s in stopped q x (omega (arith, t.once)) t.unarmed
  asked-IsStep c p a b s (q, err x) (unasked _ _ e v) =
      stopped q x (omega (arith, ap (count asks) e, s.once))
        (ap (count enables_capture) e ∙ s.unarmed)

  -- The session is there; with version 1 the user was asked for it.
  pub record IsOpened (p : InputCapture f) : Type 0 where
    pub dialog : ((p.v2 ≡ true) × (dialogs p ≡ 0)) ⊎ ((p.v2 ≡ false) × (dialogs p ≡ 1))
    pub unarmed : enabled p ≡ 0

  pub opened_once : (p : InputCapture f) → IsOpened p → dialogs p ≤ 1
  opened_once p i = elim i.dialog [ inl h ↦ omega (arith, h.1) | inr h ↦ omega (arith, h.1) ]

  pub checked-IsAsked :
      {A : Type 0} (read : Answer (Vardict f) → Answer A)
      → ((e : PortalError) → read (err e) ≡ err e)
      → (c : Call f) (p : InputCapture f) (o : InputCapture f × Answer (ℕ × Vardict f))
      → IsAsked c p o
      → IsAsked c p (checked f read o)
  unfolding checked granted
  checked-IsAsked read h c p (q, r) (asked _ _ e v) = asked q (read (granted f r)) e v
  checked-IsAsked read h c p (q, err x) (unasked _ _ e v) = rw (h x) (unasked q x e v)

  -- What a method returned `Ok` for is a response with the code 0.
  granted_ok :
      (r : Answer (ℕ × Vardict f)) (results : Vardict f)
      → granted f r ≡ ok results
      → r ≡ ok (0, results)
  unfolding granted
  granted_ok (err e) results h = absurd (cc)
  granted_ok (ok (code, found)) results h = elim (Bool-cases (code == 0)) [
    | inl z ↦
        let zero_code : code ≡ 0 = (==_iff code 0).0 z in
        let same : ok found ≡ ok results = rw z at h in rw zero_code (ap (λ y. keep y) same)
    | inr z ↦ let refusal : err (refused code) ≡ ok results = rw z at h in absurd (cc)
  ]
    where
      keep : Answer (Vardict f) → Answer (ℕ × Vardict f)
      keep (ok x) = ok (0, x)
      keep (err e) = err e

  read_ok :
      {A : Type 0} (read : Answer (Vardict f) → Answer A) (r : Answer (Vardict f)) (x : A)
      → ((e : PortalError) → read (err e) ≡ err e)
      → read r ≡ ok x
      → (results : Vardict f) × (r ≡ ok results)
  read_ok read (ok results) x h e = (results, refl)
  read_ok read (err y) x h e = let no_result : err y ≡ ok x = sym (h y) ∙ e in absurd (cc)

  pub checked_ok :
      {A : Type 0} (read : Answer (Vardict f) → Answer A)
      → ((e : PortalError) → read (err e) ≡ err e)
      → (o : InputCapture f × Answer (ℕ × Vardict f)) (x : A) → (checked f read o).1 ≡ ok x
      → (results : Vardict f) × (o.1 ≡ ok (0, results)) × (read (ok results) ≡ ok x)
  unfolding checked
  checked_ok read h (p, r) x e =
      let (results, found) = read_ok read (granted f r) x h e in
      (results, granted_ok r results found, ap read (sym found) ∙ e)

  module _ (valid : Bytes → Bool) (show : ℕ → Bytes) (prefix : Bytes) where
    called-IsAsked :
        (c : Call f) (a : Asked f) (u : Option Bytes) (p q : InputCapture f)
        → q.calls ≡ p.calls
        → q.v2 ≡ p.v2
        → IsAsked c p (called f show prefix c a u q)
    unfolding called
    called-IsAsked c a none p q e v = unasked q bus e v
    called-IsAsked c a (some u) p q e v = elim (Bool-cases a.subscribed) [
      | inl s ↦ rw s (asked _ _ (ap (λ z. c ∷ z) e) v)
      | inr s ↦ rw s (unasked q bus e v)
    ]

    pub request-IsAsked :
        (c : Call f) (a : Asked f) (p : InputCapture f) → IsAsked c p (request f show prefix c a p)
    unfolding request
    request-IsAsked c a p =
        called-IsAsked c a a.unique p (record p { token_counter = (p.token_counter + 1) % 2 ^ 32 })
          refl refl

-- ===== src/Bridge/Session/Outcomes.antt =====
-- Postconditions of `handle_client` and its parts.
use beaglewing.Common.{◌≡◌, refl}
use beaglewing.Bridge.Session.{stuck, Session, Outcome, running, closed, failed, and_then}

-- The outcome is one of the source's, and its session satisfies P.
pub data Ensures {κ} (P : Session → Type κ) : Outcome → Type κ where
  runs : {s : Session} → P s → Ensures P (running s)
  closes : {s : Session} → P s → Ensures P (closed s)
  fails : {s : Session} → P s → Ensures P (failed s)

pub Ensures-mono {κ λ'} :
    {P : Session → Type κ} {Q : Session → Type λ'} {o : Outcome}
    → ((s : Session) → P s → Q s)
    → Ensures P o
    → Ensures Q o
Ensures-mono f (runs {s} h) = runs (f s h)
Ensures-mono f (closes {s} h) = closes (f s h)
Ensures-mono f (fails {s} h) = fails (f s h)

-- What the first part ensures is handed to the rest, and must suffice where it has returned.
pub Ensures-and_then {κ λ'} :
    {P : Session → Type κ} {Q : Session → Type λ'} {o : Outcome} {rest : Session → Outcome}
    → Ensures P o
    → ((s : Session) → P s → Q s)
    → ((s : Session) → P s → Ensures Q (rest s))
    → Ensures Q (and_then o rest)
Ensures-and_then (runs {s} h) f g = g s h
Ensures-and_then (closes {s} h) f g = closes (f s h)
Ensures-and_then (fails {s} h) f g = fails (f s h)

-- The rest may be replaced by one that agrees where the first part leads.
pub and_then-cong {κ} :
    {P : Session → Type κ} {o : Outcome} {f g : Session → Outcome}
    → Ensures P o
    → ((s : Session) → P s → f s ≡ g s)
    → and_then o f ≡ and_then o g
and_then-cong (runs {s} h) e = e s h
and_then-cong (closes h) e = refl
and_then-cong (fails h) e = refl

pub and_then_assoc :
    (o : Outcome) (f g : Session → Outcome)
    → and_then (and_then o f) g ≡ and_then o (λ s. and_then (f s) g)
and_then_assoc (running s) f g = refl
and_then_assoc (closed s) f g = refl
and_then_assoc (failed s) f g = refl
and_then_assoc (stuck s) f g = refl

-- If the function goes on, the session satisfies P.
abbrev pub Continues {κ} : (Session → Type κ) → Outcome → Type κ
Continues P (running s) = P s
Continues P (closed s) = Unit
Continues P (failed s) = Unit
Continues P (stuck s) = Unit

pub Continues-and_then {κ λ'} :
    {P : Session → Type κ} {o : Outcome} (Q : Session → Type λ') (rest : Session → Outcome)
    → Ensures P o
    → ((s : Session) → P s → Continues Q (rest s))
    → Continues Q (and_then o rest)
Continues-and_then Q rest (runs {s} h) k = k s h
Continues-and_then Q rest (closes h) k = tt
Continues-and_then Q rest (fails h) k = tt

pub and_then-cong_of_Continues {κ} :
    (P : Session → Type κ) (o : Outcome) {f g : Session → Outcome}
    → Continues P o
    → ((s : Session) → P s → f s ≡ g s)
    → and_then o f ≡ and_then o g
and_then-cong_of_Continues P (running s) h e = e s h
and_then-cong_of_Continues P (closed s) h e = refl
and_then-cong_of_Continues P (failed s) h e = refl
and_then-cong_of_Continues P (stuck s) h e = refl

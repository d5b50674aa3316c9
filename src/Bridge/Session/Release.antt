-- ===== src/Bridge/Session/Release.antt =====
-- Whatever happens in a session, no input is left held when it is over.
use beaglewing.Bridge.Hid.Held.{holds}
use beaglewing.Bridge.Session.{Round, accepted, session_of, handle_client, serve_client}
use beaglewing.Common.Bytes.{Bytes}
use beaglewing.Bridge.Hid.{
  contains, kbd, Report, Hid, no_keys, write_report, release_all, ptr_report,
}
use beaglewing.Common.{
  if◌then◌else◌, Bool-cases, ℕ, ◌≡◌, refl, ap, ◌∙◌, ◌≢◌, inl, inr, Bool, false, List, [], ◌∷◌, ◌++◌,
  append-nil, append_assoc, arith,
}

-- The reports among `rs` that the host gets, when they are tried after `earlier`.
unfoldable pub taken : (List Report → Report → Bool) → List Report → List Report → List Report
taken accepts earlier [] = []
taken accepts earlier (r ∷ rs) =
    let rest = taken accepts (earlier ++ (r ∷ [])) rs in
    if accepts earlier r then r ∷ rest else rest

taken-append :
    (accepts : List Report → Report → Bool) (earlier xs ys : List Report)
    → taken accepts earlier (xs ++ ys)
      ≡ taken accepts earlier xs ++ taken accepts (earlier ++ xs) ys
unfolding taken
taken-append accepts earlier [] ys = rw (append-nil earlier) refl
taken-append accepts earlier (x ∷ xs) ys =
    let e = taken-append accepts (earlier ++ (x ∷ [])) xs ys in
    let e' = rw (append_assoc earlier (x ∷ []) xs) at e in
    elim (Bool-cases (accepts earlier x)) [ inl t ↦ rw t (ap (λ z. x ∷ z) e') | inr t ↦ rw t e' ]

-- A keyboard report with no modifier and no key.
abbrev pub keys_released : Report
keys_released = record { which = kbd; content = 0 ∷ 0 ∷ no_keys }

-- Nothing is held, and the last two reports that were tried say so: a keyboard report with no
-- modifier and no key, then a pointer report with no button. The host gets those of the two that the
-- device files take, after what it got before.
pub record IsReleased (accepts : List Report → Report → Bool) (hid : Hid) : Type 0 where
  pub earlier : List Report
  pub no_modifiers : hid.modifiers ≡ 0
  pub keys_up : hid.keys ≡ no_keys
  pub buttons_up : hid.buttons ≡ 0
  pub tried : hid.reports ≡ earlier ++ (keys_released ∷ ptr_report hid 0 ∷ [])
  pub got :
      taken accepts [] hid.reports
      ≡ taken accepts [] earlier
        ++ ((if accepts earlier keys_released then keys_released ∷ [] else [])
            ++ (if accepts (earlier ++ (keys_released ∷ [])) (ptr_report hid 0)
                then ptr_report hid 0 ∷ []
                else []))
  pub noticed : hid.hid_ok ≡ accepts (earlier ++ (keys_released ∷ [])) (ptr_report hid 0)

taken_two :
    (accepts : List Report → Report → Bool) (earlier : List Report) (x y : Report)
    → taken accepts earlier (x ∷ y ∷ [])
      ≡ (if accepts earlier x then x ∷ [] else [])
        ++ (if accepts (earlier ++ (x ∷ [])) y then y ∷ [] else [])
unfolding taken
taken_two accepts earlier x y = elim (Bool-cases (accepts earlier x)) [
  | inl t ↦ rw t refl
  | inr t ↦ rw t refl
]

release_all-IsReleased :
    (accepts : List Report → Report → Bool) (hid : Hid)
    → IsReleased accepts (release_all accepts hid)
unfolding release_all write_report
release_all-IsReleased accepts hid =
    let last = ptr_report (release_all accepts hid) 0 in
    let e = append_assoc hid.reports (keys_released ∷ []) (last ∷ []) in
    record {
      earlier = hid.reports;
      no_modifiers = refl;
      keys_up = refl;
      buttons_up = refl;
      tried = e;
      got =
          ap (taken accepts []) e
          ∙ (taken-append accepts [] hid.reports (keys_released ∷ last ∷ [])
              ∙ ap (λ z. taken accepts [] hid.reports ++ z)
                  (taken_two accepts hid.reports keys_released last));
      noticed = refl;
    }

IsReleased-holds :
    (accepts : List Report → Report → Bool) (hid : Hid) (u : ℕ)
    → IsReleased accepts hid
    → u ≢ 0
    → holds hid u ≡ false
unfolding holds contains
IsReleased-holds accepts hid u r h = rw (r.no_modifiers, r.keys_up) (ground arith)

-- When a client's session is over, however it ended and whatever the client sent, the device
-- state holds no modifier, no key and no button, and no key (no usage but 0, the mark of an empty
-- slot) counts as held. The last two reports that were tried say so; the host gets those of the two
-- that the device files take, as the last that it got, and `hid_ok` says whether they took the
-- second.
pub serve_client-IsReleased :
    (accepts : List Report → Report → Bool) (delivers : List Bytes → Bytes → Bool) (hid : Hid)
    (now : ℕ) (rounds : List Round) (u : ℕ)
    → u ≢ 0
    → IsReleased accepts (serve_client accepts delivers hid now rounds)
      × (holds (serve_client accepts delivers hid now rounds) u ≡ false)
unfolding serve_client
serve_client-IsReleased accepts delivers hid now rounds u h =
    let last = (session_of (handle_client accepts delivers (accepted hid now) rounds)).hid in
    let released = release_all-IsReleased accepts last in
    (released, IsReleased-holds accepts (release_all accepts last) u released h)

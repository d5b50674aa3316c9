-- ===== src/Tray/Shown.antt =====
-- What the tray shows after its loop has run for a while.
use beaglewing.Tray.{
  Bytes, RouterState, stopped, consent, unreachable, at_local, at_remote, Tray, word, state_of,
  Seen, observe, content, code, same_flag, same, Running, Event, polled, clicked, restart_router,
  Done, systemctl, restart, router_service, poll, click, chosen, on_event, run,
}
use beaglewing.Portal.Defs.{same_bytes}
use beaglewing.Router.Defs.{Published, local_state, remote_state, no_bridge}
use beaglewing.Common.{
  ◌==◌, if◌then◌else◌, ==_iff, Bool-cases, replicate, ℕ, zero, suc, ◌+◌, ◌≡◌, refl, sym, ap, ◌∙◌,
  inl, inr, Bool, true, false, ◌&&◌, some, List, [], ◌∷◌, arith,
}

decode : ℕ → RouterState
decode n =
    if n == 0
    then stopped
    else (if n == 1
        then consent
        else (if n == 2 then unreachable else (if n == 3 then at_local else at_remote)))

decode-code : (r : RouterState) → decode (code r) ≡ r
unfolding decode code
decode-code stopped = refl
decode-code consent = refl
decode-code unreachable = refl
decode-code at_local = refl
decode-code at_remote = refl

same_flag_sound : (a b : Bool) → same_flag a b ≡ true → a ≡ b
unfolding same_flag
same_flag_sound true b h = sym h
same_flag_sound false true h = absurd (cc)
same_flag_sound false false h = refl

same_flag_refl : (a : Bool) → same_flag a a ≡ true
unfolding same_flag
same_flag_refl true = refl
same_flag_refl false = refl

both : (a b : Bool) → (a && b) ≡ true → (a ≡ true) × (b ≡ true)
both true b h = (refl, h)
both false b h = absurd (cc)

same_sound : (a b : Tray) → same a b ≡ true → a ≡ b
unfolding same
same_sound a b h =
    let x = both _ _ h in
    let y = both _ _ x.1 in
    let r =
      sym (decode-code a.router)
      ∙ (ap decode ((==_iff (code a.router) (code b.router)).0 x.0) ∙ decode-code b.router) in
    let l = same_flag_sound a.router_at_login b.router_at_login y.0 in
    let c = same_flag_sound a.clipboard_running b.clipboard_running y.1 in rw (r, l, c) refl

same_refl : (a : Tray) → same a a ≡ true
unfolding same
same_refl a =
    rw
      (
        (==_iff (code a.router) (code a.router)).1 refl,
        same_flag_refl a.router_at_login,
        same_flag_refl a.clipboard_running,
      )
      refl

-- Rounds of the loop that see these, one after another.
unfoldable pub polls : List Tray → List Event
polls [] = []
polls (t ∷ ts) = polled false t ∷ polls ts

abbrev pub latest : Tray → List Tray → Tray
latest t [] = t
latest t (u ∷ us) = latest u us

-- How often what is seen changes.
unfoldable pub changes : Tray → List Tray → ℕ
changes t [] = 0
changes t (u ∷ us) = (if same u t then 0 else 1) + changes u us

-- A tray that shows what the loop saw last.
abbrev pub showing : Tray → ℕ → List Done → Running
showing t n d = record { tray = t; last = t; updates = n; done = d }

poll-showing :
    (t now : Tray) (n : ℕ) (d : List Done)
    → poll now (showing t n d) ≡ showing now (n + (if same now t then 0 else 1)) d
unfolding poll
poll-showing t now n d = elim (Bool-cases (same now t)) [
  | inl e ↦ rw e (rw (same_sound now t e) (ap (λ z. showing t z d) (omega arith)))
  | inr e ↦ rw e refl
]

-- While nothing is chosen in the menu, the tray shows what was seen last, and it is updated only
-- as often as what is seen changes.
pub run-polls :
    (ts : List Tray) (t : Tray) (n : ℕ) (d : List Done)
    → run (polls ts) (showing t n d) ≡ some (showing (latest t ts) (n + changes t ts) d)
unfolding run polls changes on_event
run-polls [] t n d = ap (λ z. some (showing t z d)) (omega arith)
run-polls (u ∷ us) t n d = rw (poll-showing t u n d) (
    run-polls us u (n + (if same u t then 0 else 1)) d
    ∙ ap (λ z. some (showing (latest u us) z d)) (omega arith))

-- A restart of the router from the menu, after which `refresh` sees another state than the loop saw
-- before, is not corrected: as long as the loop sees the state from before the restart again, the
-- tray goes on showing what `refresh` saw.
pub run-restart :
    (n : ℕ) (built seen : Tray) (s : Running)
    → run (clicked built restart_router seen ∷ polls (replicate n s.last)) s
      ≡ some (record s { tray = seen; done = systemctl restart router_service ∷ s.done })
unfolding run polls replicate on_event click chosen poll
run-restart zero built seen s = refl
run-restart (suc n) built seen s = rw (same_refl s.last) (run-restart n built seen s)

unfoldable pub shown : Published → RouterState
shown local_state = at_local
shown remote_state = at_remote
shown no_bridge = unreachable

state_of-word : (p : Published) → state_of (word p) ≡ shown p
unfolding state_of word same_bytes shown
state_of-word local_state = refl
state_of-word remote_state = refl
state_of-word no_bridge = refl

-- While the router is active and its state file has the word for where the input goes, the tray
-- shows that, provided that `trim` leaves the word as it is.
pub observe-word :
    (trim : Bytes → Bytes) (w : Seen) (p : Published)
    → w.router_active ≡ true
    → w.state_file ≡ some (word p)
    → trim (word p) ≡ word p
    → (observe trim w).router ≡ shown p
unfolding observe content
observe-word trim w p a s t = rw (a, s) (rw t (state_of-word p))

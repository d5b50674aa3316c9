-- ===== src/Tests/Icon.antt =====
-- Runs of linux/input-router/src/tray.rs, and its theorems at concrete data.
use beaglewing.Common.Bytes.{Bytes}
use beaglewing.Router.Defs.{remote_state}
use beaglewing.Tray.{
  Tray, consent, at_local, at_remote, Seen, observe, word, systemctl, restart, router_service,
  restart_router, clicked, run, same,
}
use beaglewing.Tray.Shown.{
  showing, polls, latest, changes, shown, run-polls, run-restart, observe-word,
}
use beaglewing.Common.{replicate, ◌+◌, ◌≡◌, refl, true, some, [], ◌∷◌}

abbrev here : Tray
here = record { router = at_local; router_at_login = true; clipboard_running = true }

abbrev there : Tray
there = record here { router = at_remote }

abbrev asking : Tray
asking = record here { router = consent }

run-polls_example :
    run (polls (here ∷ there ∷ there ∷ [])) (showing here 0 [])
    ≡ some (
        showing
          (latest here (here ∷ there ∷ there ∷ []))
          (0 + changes here (here ∷ there ∷ there ∷ []))
          [])
run-polls_example = run-polls (here ∷ there ∷ there ∷ []) here 0 []

polls_updates : changes here (here ∷ there ∷ there ∷ []) ≡ 1
unfolding changes same
polls_updates = refl

run-restart_example :
    run (clicked here restart_router asking ∷ polls (replicate 5 here)) (showing here 0 [])
    ≡ some
        (record (showing here 0 []) { tray = asking; done = systemctl restart router_service ∷ [] })
run-restart_example = run-restart 5 here asking (showing here 0 [])

abbrev untrimmed : Bytes → Bytes
untrimmed text = text

abbrev crossed : Seen
crossed = record {
  router_active = true;
  router_enabled = true;
  clipboard_active = true;
  state_file = some (word remote_state);
}

observe-word_example : (observe untrimmed crossed).router ≡ shown remote_state
observe-word_example = observe-word untrimmed crossed remote_state refl refl refl

-- ===== src/Tray.antt =====
-- linux/input-router/src/tray.rs: the status icon, its menu and its loop.
-- What `observe` sees is given: the answers of systemctl, and the state file, whose words router.rs
-- writes. Texts are bytes. The drawing of the icon, in floating point, is left out.
pub mod Shown
use beaglewing.Common.Bytes.{Bytes}
use beaglewing.Portal.Defs.{same_bytes}
use beaglewing.Router.Defs.{Published, local_state, remote_state, no_bridge}
use beaglewing.Common.{
  ◌==◌, if◌then◌else◌, ◌>>=◌, ℕ, ◌+◌, Bool, true, false, not, ◌&&◌, Option, none, some, List, [],
  ◌∷◌,
}

pub data RouterState : Type 0 where
  stopped consent unreachable at_local at_remote : RouterState

-- `BeaglewingTray`, and the triple that `observe` returns.
pub record Tray : Type 0 where
  pub router : RouterState
  pub router_at_login : Bool
  pub clipboard_running : Bool

-- The words that `publish_state` writes for the router's loop.
unfoldable pub word : Published → Bytes
word local_state = 108 ∷ 111 ∷ 99 ∷ 97 ∷ 108 ∷ []
word remote_state = 114 ∷ 101 ∷ 109 ∷ 111 ∷ 116 ∷ 101 ∷ []
word no_bridge = 110 ∷ 111 ∷ 45 ∷ 98 ∷ 114 ∷ 105 ∷ 100 ∷ 103 ∷ 101 ∷ []

-- The match on the trimmed content of the state file; it stays on the dialog without one of these.
unfoldable pub state_of : Bytes → RouterState
unfolding same_bytes word
state_of text =
    if same_bytes text (word remote_state)
    then at_remote
    else (if same_bytes text (word no_bridge)
        then unreachable
        else (if same_bytes text (word local_state) then at_local else consent))

-- `is-active` and `is-enabled` of the router, `is-active` of the clipboard agent, and the file.
pub record Seen : Type 0 where
  pub router_active : Bool
  pub router_enabled : Bool
  pub clipboard_active : Bool
  pub state_file : Option Bytes

unfoldable pub content : Option Bytes → Bytes
content none = []
content (some text) = text

unfoldable pub observe : (Bytes → Bytes) → Seen → Tray
unfolding content state_of
observe trim w = record {
  router = if w.router_active then state_of (trim (content w.state_file)) else stopped;
  router_at_login = w.router_enabled;
  clipboard_running = w.clipboard_active;
}

-- The colour of the icon: red, green and blue.
unfoldable pub color : RouterState → ℕ × (ℕ × ℕ)
color stopped = (144, (144, 144))
color consent = (230, (180, 42))
color unreachable = (232, (93, 46))
color at_local = (60, (184, 100))
color at_remote = (58, (130, 230))

-- The entries of the menu that can be chosen.
pub data Item : Type 0 where
  toggle_router restart_router toggle_login fetch_files toggle_clipboard quit : Item

pub data Verb : Type 0 where
  start stop restart enable disable : Verb

pub data Service : Type 0 where
  router_service clipboard_service : Service

pub data Done : Type 0 where
  systemctl : Verb → Service → Done
  send_pull exit : Done

unfoldable pub is_running : RouterState → Bool
is_running stopped = false
is_running _ = true

-- Whether the menu offers the entry.
unfoldable pub offers : Tray → Item → Bool
unfolding is_running
offers t restart_router = is_running t.router
offers t fetch_files = t.clipboard_running
offers t item = true

-- What choosing an entry does: the one for the router goes by the state that the menu was built
-- for, the others by the present one.
unfoldable pub chosen : Tray → Item → Tray → Done
unfolding is_running
chosen built toggle_router t =
    systemctl (if is_running built.router then stop else start) router_service
chosen built restart_router t = systemctl restart router_service
chosen built toggle_login t =
    systemctl (if t.router_at_login then disable else enable) router_service
chosen built fetch_files t = send_pull
chosen built toggle_clipboard t =
    systemctl (if t.clipboard_running then stop else start) clipboard_service
chosen built quit t = exit

-- `==` as derived: by the constructors.
unfoldable pub code : RouterState → ℕ
code stopped = 0
code consent = 1
code unreachable = 2
code at_local = 3
code at_remote = 4

unfoldable pub same_flag : Bool → Bool → Bool
same_flag true b = b
same_flag false b = not b

unfoldable pub same : Tray → Tray → Bool
unfolding code same_flag
same a b =
    (code a.router == code b.router)
    && (same_flag a.router_at_login b.router_at_login
        && same_flag a.clipboard_running b.clipboard_running)

-- The tray, the variable `last` of `run`, the number of updates, and what was done, newest first.
pub record Running : Type 0 where
  pub tray : Tray
  pub last : Tray
  pub updates : ℕ
  pub done : List Done

-- A round of the loop, with whether the icon is closed and what is observed; or an entry of a menu
-- built for a state is chosen, with what `refresh` observes.
pub data Event : Type 0 where
  polled : Bool → Tray → Event
  clicked : Tray → Item → Tray → Event

unfoldable pub poll : Tray → Running → Running
unfolding same
poll now s =
    if same now s.last then s else record s { tray = now; last = now; updates = s.updates + 1 }

unfoldable pub click : Tray → Item → Tray → Running → Option Running
unfolding chosen
click built quit now s = none
click built fetch_files now s = some (record s { done = send_pull ∷ s.done })
click built item now s = some (record s { tray = now; done = chosen built item s.tray ∷ s.done })

-- `none` is the exit of the process.
unfoldable pub on_event : Event → Running → Option Running
unfolding poll click
on_event (polled true now) s = none
on_event (polled false now) s = some (poll now s)
on_event (clicked built item now) s = click built item now s

unfoldable pub run : List Event → Running → Option Running
unfolding on_event
run [] s = some s
run (e ∷ es) s = do t ← on_event e s; run es t

-- The state with which `run` begins.
unfoldable pub begun : Tray → Running
begun t = record { tray = t; last = t; updates = 0; done = [] }

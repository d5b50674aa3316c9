-- ===== src/Tests/Routing.antt =====
-- Runs of linux/input-router/src/router.rs, and the theorems about them at concrete data.
use beaglewing.Client.Defs.{Command, keepalive}
use beaglewing.Geometry.Space.{new_space}
use beaglewing.Router.Defs.{
  Zone, Action, Router, is_clean, held, captures, activated, key, button, motion, frame, timeout,
  deactivated, Event,
}
use beaglewing.Router.Emergency.{released, update}
use beaglewing.Router.Handle.{Portal, handle}
use beaglewing.Router.Local.{go_local}
use beaglewing.Router.Hotkey.{update_all, all_down, update-all_down}
use beaglewing.Router.Loop.{Turn}
use beaglewing.Router.Safety.Handle.{handle-Secure}
use beaglewing.Router.Safety.Secure.{Secure}
use beaglewing.Router.Safety.Invariant.{IsSafe, IsHome, go_local-IsHome}
use beaglewing.Router.Safety.Recovery.{Homely, upkeep-lost_bridge, upkeep-is_void, is_void}
use beaglewing.Geometry.Space.{remote}
use beaglewing.Router.Safety.Upkeep.{Safely, upkeep-Safely}
use beaglewing.Router.Upkeep.{upkeep}
use beaglewing.Tests.Cursor.{whole, whole-IsOrdered, desk, desk-AreUsable}
use beaglewing.Common.{ℕ, ◌≡◌, refl, Bool, true, false, none, some, List, [], ◌∷◌, arith}

abbrev zone : Zone
zone = record { width = 1920; height = 1080; x = 0; y = 0 }

-- The bridge takes every message but a keepalive.
abbrev takes : List (Action whole) → Command → Bool
takes done keepalive = false
takes done c = true

abbrev connected : Router whole
connected = record {
  bridge = true;
  active_id = none;
  space = desk;
  activated_at = 0;
  events_this_activation = false;
  emergency = released;
  acc_dx = 0;
  acc_dy = 0;
  acc_scroll = 0;
  buttons = 0;
  last_send = 0;
  last_reconnect = 0;
  last_ptr_send = 0;
  pending_pos = none;
  pending_wheel = 0;
  actions = [];
}

connected-IsSafe : IsSafe whole whole-IsOrdered connected
unfolding new_space is_clean held
connected-IsSafe = record {
  connected = refl;
  screen = refl;
  clean = refl;
  no_buttons = refl;
  usable = desk-AreUsable;
  tracked = refl;
}

abbrev portal : Portal
portal = record { enables = true; zones = some (zone ∷ []); places = λ p. some true }

abbrev round_of : ℕ → Event whole → Turn whole
round_of now e = record {
  shutdown = false;
  now = now;
  connects = true;
  event = e;
  received_at = now;
  portal = portal;
}

-- Cross, click, press A, move, and lose the bridge when the keepalive is refused.
abbrev rounds : List (Turn whole)
rounds =
    round_of 10 (activated 1 0 500)
    ∷ round_of 20 (button 272 true)
    ∷ round_of 30 (key 30 true)
    ∷ round_of 40 (motion 5 5)
    ∷ round_of 41 frame
    ∷ round_of 3000 timeout
    ∷ round_of 3001 deactivated
    ∷ []

handle-Secure_run :
    Secure whole whole-IsOrdered (handle whole zone takes (activated 1 0 500) 10 portal connected)
handle-Secure_run =
    handle-Secure whole whole-IsOrdered zone takes (activated 1 0 500) 10 portal connected
      connected-IsSafe

upkeep-Safely_run :
    Safely whole whole-IsOrdered zone takes (upkeep whole zone takes 3000 true connected)
upkeep-Safely_run =
    upkeep-Safely whole whole-IsOrdered zone takes 3000 true connected connected-IsSafe

-- LCtrl, LAlt and, after an A, Backslash.
update-all_down_example :
    (update (update_all released ((0xe0, true) ∷ (0xe2, true) ∷ (4, true) ∷ [])) 0x31 true).1
    ≡ all_down ((0xe0, true) ∷ (0xe2, true) ∷ (4, true) ∷ (0x31, true) ∷ [])
update-all_down_example = update-all_down ((0xe0, true) ∷ (0xe2, true) ∷ (4, true) ∷ []) 0x31 true

-- A capture that began at 0 and brought no event.
abbrev captured : Router whole
captured = record connected {
  active_id = some 7;
  space = record desk { target = remote };
  last_send = 3000;
  actions = captures 7 ∷ [];
}

captured-IsSafe : IsSafe whole whole-IsOrdered captured
unfolding new_space is_clean held
captured-IsSafe = record {
  connected = refl;
  screen = refl;
  clean = refl;
  no_buttons = refl;
  usable = record {
    local_usable = desk-AreUsable.local_usable;
    remote_usable = desk-AreUsable.remote_usable;
  };
  tracked = refl;
}

go_local-IsHome_example :
    (r' : Router whole) × (go_local whole zone takes captured ≡ some r')
    × IsHome whole whole-IsOrdered r'
    × (r'.bridge ≡ true)
go_local-IsHome_example =
    go_local-IsHome whole whole-IsOrdered zone takes captured captured-IsSafe.usable
      captured-IsSafe.tracked

upkeep-lost_bridge_example :
    Homely whole whole-IsOrdered zone takes (upkeep whole zone takes 5000 true captured)
upkeep-lost_bridge_example =
    upkeep-lost_bridge whole whole-IsOrdered zone takes 5000 true captured captured-IsSafe refl
      (omega arith) refl

upkeep-is_void_example :
    Homely whole whole-IsOrdered zone takes (upkeep whole zone takes 3500 true captured)
unfolding is_void
upkeep-is_void_example =
    upkeep-is_void whole whole-IsOrdered zone takes 3500 true captured captured-IsSafe refl

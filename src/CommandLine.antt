-- ===== src/CommandLine.antt =====
-- linux/input-router/src/main.rs: the arguments, `observe` and `send-test`.
-- Arguments are bytes, and `none` is the exit with the usage text. `parse` reads an f64.
pub mod Words
pub mod Course
pub mod SendTest
use beaglewing.Client.Defs.{
  Command, release_all, get_status, key_down, key_up, pointer_abs, pointer_button, command_frame,
  Status,
}
use beaglewing.CommandLine.Words.{
  word_run, word_clipboard, word_pull, word_tray, word_list, word_observe, word_send_test,
  opt_relay, opt_bridge, opt_remote_size, opt_verbose, opt_device, opt_grab, opt_host, opt_click,
  default_bridge, default_relay,
}
use beaglewing.Common.Bytes.{Bytes}
use beaglewing.Geometry.Scalar.{Scalar}
use beaglewing.Geometry.Space.{Screen}
use beaglewing.Hidmap.{keycode_to_usage, button_to_bit}
use beaglewing.Portal.Defs.{same_bytes}
use beaglewing.Common.{
  ◌==◌, if◌then◌else◌, ◌>>=◌, ℕ, ◌+◌, Bool, true, false, ◌&&◌, Option, none, some, List, [], ◌∷◌,
  ◌++◌,
}

-- What `observe` prints of a key: its action, and what it stands for on the second computer.
pub data Action : Type 0 where
  up down repeats : Action

pub data Meaning : Type 0 where
  usage button : ℕ → Meaning
  unmapped : Meaning

unfoldable pub action : ℕ → Action
action value = if value == 0 then up else (if value == 1 then down else repeats)

or_button : Option ℕ → Meaning
or_button none = unmapped
or_button (some bit) = button bit

unfoldable pub meaning : ℕ → Meaning
unfolding or_button
meaning code = elim (keycode_to_usage code) [
  | none ↦ or_button (button_to_bit code)
  | some u ↦ usage u
]

-- `split_once('x')`
unfoldable pub split_x : Bytes → Option (Bytes × Bytes)
split_x [] = none
split_x (b ∷ bs) =
    let later = split_x bs in
    if b == 120 then some ([], bs) else elim later [ none ↦ none | some (w, h) ↦ some (b ∷ w, h) ]

-- `--relay`
unfoldable pub parse_clipboard : List Bytes → Bytes → Option Bytes
unfolding same_bytes
parse_clipboard [] relay = some relay
parse_clipboard (a ∷ []) relay = none
parse_clipboard (a ∷ v ∷ rest) relay =
    let later = parse_clipboard rest v in if same_bytes a opt_relay then later else none

-- `--device` without a value forgets the device.
pub record Observing : Type 0 where
  pub device : Option Bytes
  pub grab : Bool

unfoldable pub parse_observe : List Bytes → Observing → Option Observing
unfolding same_bytes
parse_observe [] o = some o
parse_observe (a ∷ []) o =
    if same_bytes a opt_device
    then some (record o { device = none })
    else (if same_bytes a opt_grab then some (record o { grab = true }) else none)
parse_observe (a ∷ v ∷ rest) o =
    let valued = parse_observe rest (record o { device = some v }) in
    let flag = parse_observe (v ∷ rest) (record o { grab = true }) in
    if same_bytes a opt_device then valued else (if same_bytes a opt_grab then flag else none)

pub record Testing : Type 0 where
  pub host : Bytes
  pub click : Bool

unfoldable pub parse_test : List Bytes → Testing → Option Testing
unfolding same_bytes
parse_test [] o = some o
parse_test (a ∷ []) o = if same_bytes a opt_click then some (record o { click = true }) else none
parse_test (a ∷ v ∷ rest) o =
    let valued = parse_test rest (record o { host = v }) in
    let flag = parse_test (v ∷ rest) (record o { click = true }) in
    if same_bytes a opt_host then valued else (if same_bytes a opt_click then flag else none)

module _ (f : Scalar) (parse : Bytes → Option (f.F)) where
  pub record RunArgs : Type 0 where
    pub bridge_addr : Bytes
    pub remote : Screen f
    pub verbose : Bool

  -- What the process goes on to do.
  pub data Role : Type 0 where
    runs : RunArgs → Role
    clipboards : Bytes → Role
    pulls trays lists : Role
    observes : Bytes → Bool → Role
    tests : Testing → Role

  unfoldable pub parse_size : Bytes → Option (Screen f)
  unfolding split_x
  parse_size v = do
    (w, h) ← split_x v
    width ← parse w
    height ← parse h
    some (record { width = width; height = height })

  unfoldable pub parse_run : List Bytes → RunArgs → Option RunArgs
  unfolding same_bytes parse_size
  parse_run [] c = some c
  parse_run (a ∷ []) c =
      if same_bytes a opt_verbose then some (record c { verbose = true }) else none
  parse_run (a ∷ v ∷ rest) c =
      let addressed = parse_run rest (record c { bridge_addr = v }) in
      let sized = (do size ← parse_size v; parse_run rest (record c { remote = size })) in
      let flag = parse_run (v ∷ rest) (record c { verbose = true }) in
      if same_bytes a opt_bridge
      then addressed
      else (if same_bytes a opt_remote_size
          then sized
          else (if same_bytes a opt_verbose then flag else none))

  -- Observing needs a device.
  with_device : Observing → Option Role
  with_device o = do d ← o.device; some (observes d o.grab)

  abbrev pub default_run : RunArgs
  default_run = record {
    bridge_addr = default_bridge;
    remote = record { width = f.of_u32 1920; height = f.of_u32 1080 };
    verbose = false;
  }

  unfoldable pub role : List Bytes → Option Role
  unfolding same_bytes with_device
  role [] = none
  role (a ∷ rest) =
      if same_bytes a word_run
      then (do c ← parse_run rest default_run; some (runs c))
      else if same_bytes a word_clipboard
      then (do r ← parse_clipboard rest default_relay; some (clipboards r))
      else if same_bytes a word_pull
      then some pulls
      else if same_bytes a word_tray
      then some trays
      else if same_bytes a word_list
      then some lists
      else if same_bytes a word_observe
      then (do o ← parse_observe rest (record { device = none; grab = false }); with_device o)
      else if same_bytes a word_send_test
      then (do
        t ← parse_test rest (record { host = default_bridge; click = false })
        some (tests t))
      else none

unfoldable pub diamond : List Command
diamond =
    pointer_abs 32768 32768
    ∷ pointer_abs 16384 32768
    ∷ pointer_abs 32768 16384
    ∷ pointer_abs 49152 32768
    ∷ pointer_abs 32768 49152
    ∷ pointer_abs 32768 32768
    ∷ []

abbrev pub left_click : List Command
left_click = pointer_button 1 ∷ pointer_button 0 ∷ []

unfoldable pub typed : List ℕ → List Command
typed [] = []
typed (u ∷ us) = key_down u ∷ key_up u ∷ typed us

-- "router ok" and Enter, as HID usages
abbrev pub router_ok : List ℕ
router_ok = 0x15 ∷ 0x12 ∷ 0x18 ∷ 0x17 ∷ 0x08 ∷ 0x15 ∷ 0x2c ∷ 0x12 ∷ 0x0e ∷ 0x28 ∷ []

-- What `send-test` sends before the release.
unfoldable pub input_commands : Bool → List Command
unfolding diamond typed
input_commands click = diamond ++ ((if click then left_click else []) ++ typed router_ok)

unfoldable pub test_commands : Bool → List Command
unfolding input_commands
test_commands click = input_commands click ++ (release_all ∷ get_status ∷ [])

-- The commands in turn; `none` is the panic on a failed write.
unfoldable pub send_all :
    (List Bytes → Bytes → Bool) → List Command → List Bytes → Option (List Bytes)
send_all writes [] sent = some sent
send_all writes (c ∷ cs) sent =
    let rest = send_all writes cs (sent ++ (command_frame c ∷ [])) in
    if writes sent (command_frame c) then rest else none

pub data Verdict : Type 0 where
  complete no_status not_clean hid_failing : Verdict

-- The assertions on the status.
unfoldable pub verdict : Option Status → Verdict
verdict none = no_status
verdict (some st) =
    if st.modifiers == 0 && (st.held_keys == 0 && st.buttons == 0)
    then (if st.hid_ok then complete else hid_failing)
    else not_clean

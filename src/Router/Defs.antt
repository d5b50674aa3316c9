-- ===== src/Router/Defs.antt =====
-- linux/input-router/src/router.rs: the variables of `run`, and what it does to its environment.
-- Times are in milliseconds. The variables that only feed the log (`key_lag`, `last_stats`,
-- `gap_times`, `last_capture_event`) are left out.
use beaglewing.Client.Defs.{Command, release_all, key_down, pointer_button}
use beaglewing.Geometry.Scalar.{Scalar}
use beaglewing.Geometry.Space.{Space}
use beaglewing.Router.Emergency.{Emergency}
use beaglewing.Common.{◌==◌, if◌then◌else◌, ℕ, Bool, true, false, Option, none, some, List, [], ◌∷◌}

-- A zone of the compositor; positions are i32 bit patterns.
pub record Zone : Type 0 where
  pub width : ℕ
  pub height : ℕ
  pub x : ℕ
  pub y : ℕ

-- The words that `publish_state` writes.
pub data Published : Type 0 where
  local_state remote_state no_bridge : Published

-- The words that `send_control` sends.
pub data Control : Type 0 where
  control_local control_remote : Control

module _ (f : Scalar) where
  open f use {F}

  -- What the router does to the outside; `sent` is an attempt to write to the bridge. The portal's
  -- activations are noted among it: `captures` is the start of a capture that the router is told of.
  pub data Action : Type 0 where
    sent : Command → Action
    release : ℕ → F → F → Action
    publish : Published → Action
    control : Control → Action
    connect enable disable : Action
    captures : ℕ → Action

  -- `actions` holds what was done so far, newest first.
  pub record Router : Type 0 where
    pub bridge : Bool
    pub active_id : Option ℕ
    pub space : Space f
    pub activated_at : ℕ
    pub events_this_activation : Bool
    pub emergency : Emergency
    pub acc_dx : F
    pub acc_dy : F
    pub acc_scroll : F
    pub buttons : ℕ
    pub last_send : ℕ
    pub last_reconnect : ℕ
    pub last_ptr_send : ℕ
    pub pending_pos : Option (ℕ × ℕ)
    pub pending_wheel : ℕ
    pub actions : List Action

  -- What the loop receives: the portal's signals, the screensaver's state, captured input, a
  -- timeout, or a closed channel. Integers of type i32 are bit patterns; `f32` values are F.
  pub data Event : Type 0 where
    activated : ℕ → F → F → Event
    deactivated disabled zones_changed timeout channel_closed : Event
    screen_saver : Bool → Event
    key button : ℕ → Bool → Event
    motion : F → F → Event
    scroll_discrete : ℕ → Event
    scroll_delta : F → Event
    frame ei_disconnected : Event

  abbrev pub act : Action → Router → Router
  act a r = record r { actions = a ∷ r.actions }

  -- A Release ends the capture that it names.
  unfoldable pub ended : ℕ → Option ℕ → Option ℕ
  ended id none = none
  ended id (some k) = if k == id then none else some k

  -- The capture that the router was told of and has not released: the portal keeps the input from
  -- the local screen while there is one.
  unfoldable pub held : List Action → Option ℕ
  unfolding ended
  held [] = none
  held (captures id ∷ rest) = some id
  held (release id x y ∷ rest) = ended id (held rest)
  held (a ∷ rest) = held rest

  -- No message that holds a key or a button was tried after the last attempt to send RELEASE_ALL.
  unfoldable pub is_clean : List Action → Bool
  is_clean [] = true
  is_clean (sent release_all ∷ rest) = true
  is_clean (sent (key_down u) ∷ rest) = false
  is_clean (sent (pointer_button b) ∷ rest) = false
  is_clean (a ∷ rest) = is_clean rest

  -- The loop goes on, `run` returns `Ok` or `Err`, or it panics.
  pub data Flow : Type 0 where
    goes returns errs : Router → Flow
    panics : Flow

  abbrev pub flow : (Router → Flow) → Option Router → Flow
  flow next none = panics
  flow next (some r) = next r

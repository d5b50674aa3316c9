-- ===== src/Portal/Defs.antt =====
-- linux/input-router/src/portal.rs: the session, the values of the bus, and `request`.
-- What the portal answers is given with each call. Texts and object paths are bytes.
use beaglewing.Common.Bytes.{Bytes}
use beaglewing.Geometry.Scalar.{Scalar}
use beaglewing.Router.Barriers.{Position}
use beaglewing.Router.Defs.{Zone}
use beaglewing.Common.{
  ◌==◌, if◌then◌else◌, ℕ, ◌+◌, ◌%◌, ◌^◌, Bool, true, false, Option, none, some, List, [], ◌∷◌, ◌++◌,
}

-- The names that are looked up in the results of a call or a signal.
pub data Key : Type 0 where
  session_handle capabilities restore_token zones zone_set failed_barriers : Key
  activation_id cursor_position : Key

-- `bus` is an error that zbus reports, and the second line has those of `arm_barriers`.
pub data PortalError : Type 0 where
  no_session_handle no_zones bad_zones no_response bus : PortalError
  no_zone all_rejected : PortalError
  refused : ℕ → PortalError

pub data Answer {ℓ} (A : Type ℓ) : Type ℓ where
  ok : A → Answer A
  err : PortalError → Answer A

-- keyboard and pointer
abbrev pub cap_both : ℕ
cap_both = 3

unfoldable pub same_bytes : Bytes → Bytes → Bool
same_bytes [] [] = true
same_bytes (a ∷ xs) (b ∷ ys) = let rest = same_bytes xs ys in if a == b then rest else false
same_bytes _ _ = false

-- `trim_start_matches(':')`
unfoldable pub trim_colons : Bytes → Bytes
trim_colons [] = []
trim_colons (b ∷ bs) = let rest = trim_colons bs in if b == 58 then rest else b ∷ bs

-- `replace('.', "_")`
unfoldable pub underscored : Bytes → Bytes
underscored [] = []
underscored (b ∷ bs) = (if b == 46 then 95 else b) ∷ underscored bs

module _ (f : Scalar) where
  open f use {F}

  -- The values that the code tells apart.
  pub data Value : Type 0 where
    u32 : ℕ → Value
    text object_path : Bytes → Value
    u32_list : List ℕ → Value
    zone_list : List Zone → Value
    point : F → F → Value
    other : Value

  abbrev pub Vardict : Type 0
  Vardict = Key → Option Value

  -- The calls that are made on the session, with the arguments that differ.
  pub data Call : Type 0 where
    create_session_2 create_session connect_to_eis get_zones enable disable : Call
    start : Option Bytes → Call
    set_pointer_barriers : ℕ → Position → ℕ → Call
    release : ℕ → Option (F × F) → Call

  -- `calls` holds the calls so far, newest first.
  pub record InputCapture : Type 0 where
    pub session : Bytes
    pub v2 : Bool
    pub token_counter : ℕ
    pub calls : List Call

  -- The next Response signal at a path: its code and results, the end of the signals, or an error.
  pub data Heard : Type 0 where
    response : ℕ → Vardict → Heard
    ended failed : Heard

  -- What happens to a request: the unique name of the connection, whether the subscription on the
  -- expected path succeeds, the path in the reply to the call, and the signal that is heard by a
  -- subscription from before the call and by one made after it.
  pub record Asked : Type 0 where
    pub unique : Option Bytes
    pub subscribed : Bool
    pub assigned : Option Bytes
    pub before : Heard
    pub after : Bytes → Heard

  -- `and_then(|v| u32::try_from(v).ok()).unwrap_or(0)`
  unfoldable pub u32_or_0 : Option Value → ℕ
  u32_or_0 (some (u32 n)) = n
  u32_or_0 _ = 0

  -- Version 1 of the portal has the handle as a text; `valid` is the syntax of object paths.
  unfoldable pub vardict_object_path : (Bytes → Bool) → Option Value → Option Bytes
  vardict_object_path valid (some (object_path p)) = some p
  vardict_object_path valid (some (text t)) = if valid t then some t else none
  vardict_object_path valid _ = none

  -- `show` writes a number in decimal, and `prefix` is the path under which requests stand.
  module _ (show : ℕ → Bytes) (prefix : Bytes) where
    abbrev pub token : ℕ → Bytes
    token n = 98 ∷ 119 ∷ show n

    unfoldable pub request_path : Bytes → ℕ → Bytes
    unfolding trim_colons underscored
    request_path unique n = prefix ++ (underscored (trim_colons unique) ++ (47 ∷ token n))

    -- A portal that assigned another path than the expected one is subscribed to there.
    unfoldable pub signal : Bytes → Bytes → Asked → Heard
    unfolding same_bytes
    signal expected actual a = if same_bytes actual expected then a.before else a.after actual

    unfoldable pub results_of : Heard → Answer (ℕ × Vardict)
    results_of (response code results) = ok (code, results)
    results_of ended = err no_response
    results_of failed = err bus

    replied : Asked → Bytes → Option Bytes → Answer (ℕ × Vardict)
    unfolding signal results_of
    replied a expected none = err bus
    replied a expected (some actual) = results_of (signal expected actual a)

    -- A call with a new token, and its response. Without a unique name or a subscription nothing is
    -- called.
    unfoldable pub called :
        Call → Asked → Option Bytes → InputCapture → InputCapture × Answer (ℕ × Vardict)
    unfolding replied request_path
    called c a none p = (p, err bus)
    called c a (some unique) p =
        if a.subscribed
        then (
          record p { calls = c ∷ p.calls },
          replied a (request_path unique p.token_counter) a.assigned,
        )
        else (p, err bus)

    unfoldable pub request : Call → Asked → InputCapture → InputCapture × Answer (ℕ × Vardict)
    unfolding called
    request c a p =
        called c a a.unique (record p { token_counter = (p.token_counter + 1) % 2 ^ 32 })

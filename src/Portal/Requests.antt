-- ===== src/Portal/Requests.antt =====
-- linux/input-router/src/portal.rs: the methods of `InputCapture` up to `release`.
use beaglewing.Common.Bytes.{Bytes}
use beaglewing.Geometry.Scalar.{Scalar}
use beaglewing.Router.Barriers.{Position}
use beaglewing.Router.Defs.{Zone}
use beaglewing.Portal.Defs.{
  session_handle, capabilities, restore_token, zones, zone_set, failed_barriers, no_session_handle,
  no_zones, bad_zones, bus, refused, Answer, ok, err, cap_both, Value, text, u32_list, zone_list,
  Vardict, Call, create_session_2, create_session, get_zones, disable, start, set_pointer_barriers,
  release, InputCapture, Asked, u32_or_0, vardict_object_path, request,
}
use beaglewing.Common.{◌==◌, if◌then◌else◌, ℕ, Bool, true, false, Option, none, some, List, [], ◌∷◌}

module _ (f : Scalar) where
  open f use {F}

  -- The answer to CreateSession2; without results they are malformed.
  pub data Created : Type 0 where
    created : Option (Vardict f) → Created
    unknown_method other_error : Created

  -- The session before it has a handle: the placeholder is the path "/".
  abbrev pub placeholder : InputCapture f
  placeholder = record { session = 47 ∷ []; v2 = true; token_counter = 0; calls = [] }

  -- `if code != 0`
  unfoldable pub granted : Answer (ℕ × Vardict f) → Answer (Vardict f)
  granted (err e) = err e
  granted (ok (code, results)) = if code == 0 then ok results else err (refused code)

  -- What a method makes of the response to its request.
  unfoldable pub checked :
      {A : Type 0}
      → (Answer (Vardict f) → Answer A)
      → InputCapture f × Answer (ℕ × Vardict f)
      → InputCapture f × Answer A
  unfolding granted
  checked read (p, r) = (p, read (granted r))

  unfoldable pub token_in : Option (Value f) → Option Bytes
  token_in (some (text t)) = some t
  token_in _ = none

  unfoldable pub started : Answer (Vardict f) → Answer (ℕ × Option Bytes)
  unfolding token_in u32_or_0
  started (err e) = err e
  started (ok results) = ok (u32_or_0 f (results capabilities), token_in (results restore_token))

  zones_in : Option (Value f) → ℕ → Answer (List Zone × ℕ)
  zones_in none set = err no_zones
  zones_in (some (zone_list zs)) set = ok (zs, set)
  zones_in (some _) set = err bad_zones

  unfoldable pub listed : Answer (Vardict f) → Answer (List Zone × ℕ)
  unfolding zones_in u32_or_0
  listed (err e) = err e
  listed (ok results) = zones_in (results zones) (u32_or_0 f (results zone_set))

  -- `and_then(|v| Vec::<u32>::try_from(v.clone()).ok()).unwrap_or_default()`
  unfoldable pub failed_in : Option (Value f) → List ℕ
  failed_in (some (u32_list ids)) = ids
  failed_in _ = []

  unfoldable pub rejected : Answer (Vardict f) → Answer (List ℕ)
  unfolding failed_in
  rejected (err e) = err e
  rejected (ok results) = ok (failed_in (results failed_barriers))

  -- ConnectToEIS, Enable, Disable and Release are calls with a plain reply, which may be an error.
  unfoldable pub call : Call f → Bool → InputCapture f → InputCapture f × Answer (Unit {0})
  call c succeeds p = (record p { calls = c ∷ p.calls }, if succeeds then ok tt else err bus)

  unfoldable pub disable_capture : Bool → InputCapture f → InputCapture f × Answer (Unit {0})
  unfolding call
  disable_capture succeeds p = call disable succeeds p

  -- The cursor is warped to the position, if there is one.
  unfoldable pub release_capture :
      ℕ → Option (F × F) → Bool → InputCapture f → InputCapture f × Answer (Unit {0})
  unfolding call
  release_capture activation cursor succeeds p = call (release activation cursor) succeeds p

  module _ (valid : Bytes → Bool) (show : ℕ → Bytes) (prefix : Bytes) where
    unfoldable pub with_session : Option Bytes → InputCapture f → InputCapture f × Answer (Unit {0})
    with_session none p = (p, err no_session_handle)
    with_session (some handle) p = (record p { session = handle }, ok tt)

    unfoldable pub opened : InputCapture f × Answer (Vardict f) → InputCapture f × Answer (Unit {0})
    unfolding with_session vardict_object_path
    opened (p, err e) = (p, err e)
    opened (p, ok results) = with_session (vardict_object_path f valid (results session_handle)) p

    -- The flow of version 1.
    unfoldable pub create_v1 : Asked f → InputCapture f → InputCapture f × Answer (Unit {0})
    unfolding opened request checked
    create_v1 a p =
        opened (checked (λ r. r) (request f show prefix create_session a (record p { v2 = false })))

    create : Created → Asked f → InputCapture f → InputCapture f × Answer (Unit {0})
    unfolding opened create_v1
    create (created (some results)) a p = opened (p, ok results)
    create (created none) a p = (p, err bus)
    create unknown_method a p = create_v1 a p
    create other_error a p = (p, err bus)

    -- The session bus is connected; the second part is used by the flow of version 1 only.
    unfoldable pub new : Created → Asked f → InputCapture f × Answer (Unit {0})
    unfolding create
    new c a = create c a (record placeholder { calls = create_session_2 ∷ [] })

    unfoldable pub start_session :
        Option Bytes → Asked f → InputCapture f → InputCapture f × Answer (ℕ × Option Bytes)
    unfolding request checked started
    start_session token a p =
        if p.v2
        then checked started (request f show prefix (start token) a p)
        else (p, ok (cap_both, none))

    unfoldable pub zones_of : Asked f → InputCapture f → InputCapture f × Answer (List Zone × ℕ)
    unfolding request checked listed
    zones_of a p = checked listed (request f show prefix get_zones a p)

    unfoldable pub set_barrier :
        ℕ → Position → ℕ → Asked f → InputCapture f → InputCapture f × Answer (List ℕ)
    unfolding request checked rejected
    set_barrier id pos set a p =
        checked rejected (request f show prefix (set_pointer_barriers id pos set) a p)

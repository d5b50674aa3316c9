-- ===== src/Tests/Capture.antt =====
-- Runs of linux/input-router/src/portal.rs and capture.rs, and their theorems at concrete data.
use beaglewing.Common.Bytes.{Bytes}
use beaglewing.Portal.Defs.{
  session_handle, capabilities, restore_token, zones, failed_barriers, activation_id, refused, ok,
  err, u32, text, object_path, u32_list, zone_list, Vardict, response, ended, Asked,
}
use beaglewing.Portal.Requests.{
  created, unknown_method, new, start_session, zones_of, set_barrier, call,
}
use beaglewing.Portal.Setup.{Answers, set_up}
use beaglewing.Portal.Setup.Consent.{IsSetUp, set_up-IsSetUp}
use beaglewing.Portal.Signals.{
  EiEvent, seat_added, keyboard_key, ei_frame, activated_signal, forward_signals, capture,
}
use beaglewing.Portal.Signals.Ended.{IsEnded, capture-IsEnded}
use beaglewing.Portal.Signals.Own.{IsForwarded, forward_signals-IsForwarded}
use beaglewing.Portal.Token.{load_token, keep_token, load_token-keep_token}
use beaglewing.Router.Barriers.{candidates}
use beaglewing.Router.Defs.{Zone, Event, activated, key, frame, ei_disconnected}
use beaglewing.Tests.Cursor.{whole}
use beaglewing.Common.{
  ◌==◌, if◌then◌else◌, length, ℕ, ◌≡◌, refl, ap, Bool, true, Option, none, some, List, [], ◌∷◌,
  arith,
}

abbrev no_results : Vardict whole
no_results k = none

abbrev session_results : Vardict whole
session_results session_handle = some (object_path (47 ∷ 115 ∷ []))
session_results k = none

abbrev start_results : Vardict whole
start_results capabilities = some (u32 3)
start_results restore_token = some (text (116 ∷ []))
start_results k = none

abbrev wide_zone : Zone
wide_zone = record { width = 1920; height = 1080; x = 0; y = 0 }

abbrev zone_results : Vardict whole
zone_results zones = some (zone_list (wide_zone ∷ []))
zone_results k = none

abbrev rejection : Vardict whole
rejection failed_barriers = some (u32_list (1 ∷ []))
rejection k = none

-- The portal answers on a path that it assigned.
abbrev answered : ℕ → Vardict whole → Asked whole
answered code results = record {
  unique = some (58 ∷ 49 ∷ 46 ∷ 50 ∷ []);
  subscribed = true;
  assigned = some [];
  before = ended;
  after = λ path. response code results;
}

-- It answers the first request of the connection ":1.2" on the expected path.
abbrev expected : ℕ → Vardict whole → Asked whole
expected code results = record {
  unique = some (58 ∷ 49 ∷ 46 ∷ 50 ∷ []);
  subscribed = true;
  assigned = some (49 ∷ 95 ∷ 50 ∷ 47 ∷ 98 ∷ 119 ∷ 1 ∷ []);
  before = response code results;
  after = λ path. ended;
}

-- The barrier in the column past the zone is rejected.
abbrev willing : Answers whole
willing = record {
  create = created (some session_results);
  consent = expected 1 no_results;
  token = none;
  start = expected 0 start_results;
  eis = true;
  zones = answered 0 zone_results;
  barrier = λ pos. answered 0 (if pos.x1 == 1920 then rejection else no_results);
  subscribes = true;
  enables = true;
}

-- The user of a portal of version 1 declines.
abbrev unwilling : Answers whole
unwilling = record willing { create = unknown_method }

abbrev any_path : Bytes → Bool
any_path path = true

abbrev digit : ℕ → Bytes
digit n = n ∷ []

willing_run : (set_up whole any_path digit [] willing).1 ≡ ok wide_zone
unfolding set_up new start_session call zones_of candidates set_barrier
willing_run = refl

unwilling_run : (set_up whole any_path digit [] unwilling).1 ≡ err (refused 1)
unfolding set_up new
unwilling_run = refl

set_up-IsSetUp_example :
    IsSetUp whole any_path digit [] willing (set_up whole any_path digit [] willing)
set_up-IsSetUp_example = set_up-IsSetUp whole any_path digit [] willing

abbrev listening : List (Event whole) → Bool
listening sent = true

abbrev captured : List (Option (EiEvent whole))
captured = some seat_added ∷ some (keyboard_key 30 true) ∷ some ei_frame ∷ none ∷ some ei_frame ∷ []

capture_broken :
    (capture whole listening true true captured (record { sent = []; bound = 0 })).sent
    ≡ key 30 true ∷ frame ∷ ei_disconnected ∷ []
unfolding capture
capture_broken = refl

capture-IsEnded_example :
    IsEnded whole listening
      ((capture whole listening true true captured (record { sent = []; bound = 0 })).sent)
capture-IsEnded_example =
    capture-IsEnded whole listening true true captured (record { sent = []; bound = 0 }) tt

abbrev id_results : Vardict whole
id_results activation_id = some (u32 9)
id_results k = none

abbrev messages : List (Option (Bytes × Vardict whole))
messages =
    some (1 ∷ [], id_results) ∷ none ∷ some (2 ∷ [], id_results) ∷ some (1 ∷ [], no_results) ∷ []

forward_signals_run :
    forward_signals whole listening (1 ∷ []) activated_signal messages []
    ≡ activated 9 0 0 ∷ activated 0 0 0 ∷ []
unfolding forward_signals
forward_signals_run = refl

forward_signals-IsForwarded_example :
    IsForwarded whole listening
      (1 ∷ [])
      activated_signal
      messages
      []
      (forward_signals whole listening (1 ∷ []) activated_signal messages [])
forward_signals-IsForwarded_example =
    forward_signals-IsForwarded whole listening (1 ∷ []) activated_signal messages []

-- `trim` leaves a text without spaces.
abbrev untrimmed : Bytes → Bytes
untrimmed bytes = bytes

load_token_run : load_token untrimmed (keep_token true (some (116 ∷ [])) none) ≡ some (116 ∷ [])
load_token_run =
    load_token-keep_token untrimmed (116 ∷ []) none
      (λ e. let no = ap length e in absurd (omega (arith, no))) refl

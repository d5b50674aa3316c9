-- ===== src/Tests/Gadget.antt =====
-- Runs of pi/bridge/src/main.rs and linux/input-router/src/protocol.rs, and the theorems about
-- them at concrete data.
use beaglewing.Bridge.Defs.{msg_hello_ack, protocol_version}
use beaglewing.Bridge.Hid.{held_count, Hid, Report, opened, key_event}
use beaglewing.Bridge.Hid.Held.{holds, has_room, key_event-holds}
use beaglewing.Bridge.Hid.Valid.{IsValid}
use beaglewing.Bridge.Message.{message, next_frame, encode, expected_len}
use beaglewing.Bridge.Message.Parts.{IsTaken, next_frame-IsTaken, next_frame-encode}
use beaglewing.Bridge.Session.{
  Session, Round, received, eof, would_block, running, accepted, and_then, handle_client,
  handle_message, read_batch, serve_client, take_pending,
}
use beaglewing.Bridge.Session.Ends.{handle_client-Ensures-IsValid}
use beaglewing.Bridge.Session.Outcomes.{Ensures}
use beaglewing.Bridge.Session.Release.{IsReleased, serve_client-IsReleased}
use beaglewing.Client.Defs.{
  key_down, key_up, pointer_abs, pointer_button, get_status, Command, message_of, hello_frame,
  accept_hello, recv, read_status,
}
use beaglewing.Client.Delivery.{effect, handle_message-effect}
use beaglewing.Client.Stream.{stream, effects, read_batch-stream}
use beaglewing.Client.Replies.{read_batch-hello, read_status-get_status}
use beaglewing.Common.Bytes.{Bytes, u16_to_le}
use beaglewing.Common.{
  ltb, ◌==◌, if◌then◌else◌, length, ◌≡◌, refl, Bool, true, false, ◌&&◌, ◌||◌, some, List, [], ◌∷◌,
  ◌++◌, arith,
}

-- The host takes no report after the first three; every frame reaches the client.
abbrev host : List Report → Report → Bool
host earlier r = ltb (length earlier) 3

abbrev client : List Bytes → Bytes → Bool
client earlier frame = true

opened-IsValid : IsValid opened
opened-IsValid = record {
  modifier_byte = omega arith;
  six_slots = refl;
  key_bytes = omega arith;
  three_buttons = omega arith;
  x_range = omega arith;
  y_range = omega arith;
  well_formed = tt;
}

-- HELLO, then the key A down and the start of another message, then the end of the stream.
abbrev rounds : List Round
rounds =
    record { shutdown = false; now = 10; read = received (1 ∷ 2 ∷ 1 ∷ 0 ∷ []); read_at = 11 }
    ∷ record {
      shutdown = false;
      now = 12;
      read = received (0x10 ∷ 1 ∷ 4 ∷ 0x20 ∷ []);
      read_at = 13;
    }
    ∷ record { shutdown = false; now = 14; read = would_block; read_at = 15 }
    ∷ record { shutdown = false; now = 16; read = eof; read_at = 17 }
    ∷ []

serve_client-IsReleased_example :
    IsReleased host (serve_client host client opened 0 rounds)
    × (holds (serve_client host client opened 0 rounds) 4 ≡ false)
serve_client-IsReleased_example =
    serve_client-IsReleased host client opened 0 rounds 4 (omega arith)

handle_client-Ensures-IsValid_example :
    Ensures (λ s. IsValid s.hid) (handle_client host client (accepted opened 0) rounds)
handle_client-Ensures-IsValid_example =
    handle_client-Ensures-IsValid host client opened 0 rounds opened-IsValid (omega arith)

abbrev holding : Hid
holding = record opened { modifiers = 2; keys = 4 ∷ 5 ∷ 0 ∷ 0 ∷ 0 ∷ 0 ∷ [] }

key_event-holds_example :
    holds (key_event host holding 6 true) 6
    ≡ (if 6 == 6 then true && (holds holding 6 || has_room holding 6) else holds holding 6)
key_event-holds_example =
    key_event-holds host holding 6 6 true (omega arith) (omega arith) (omega arith)

encoded_key : next_frame (encode 0x10 (4 ∷ []) ++ (3 ∷ [])) ≡ message 0x10 (4 ∷ []) (3 ∷ [])
encoded_key = next_frame-encode 0x10 (4 ∷ []) (3 ∷ []) (unfold expected_len in refl) (omega arith)

next_frame-IsTaken_run : IsTaken (0x10 ∷ 1 ∷ 4 ∷ 3 ∷ []) 0x10 (4 ∷ []) (3 ∷ [])
next_frame-IsTaken_run = next_frame-IsTaken (0x10 ∷ 1 ∷ 4 ∷ 3 ∷ []) encoded_key

-- A greeted session with a position that is not reported yet.
abbrev greeted : Session
greeted = record (accepted holding 5) { greeted = true; pending_abs = some (100, 200) }

handle_message-effect_run :
    handle_message host client greeted
      (message_of (pointer_button 9)).0
      (message_of (pointer_button 9)).1
    ≡ effect host client greeted (pointer_button 9)
handle_message-effect_run =
    handle_message-effect host client (pointer_button 9) greeted refl (omega arith)

abbrev commands : List Command
commands = key_down 4 ∷ pointer_abs 7 9 ∷ pointer_button 1 ∷ key_up 4 ∷ get_status ∷ []

read_batch-stream_example :
    read_batch host client greeted (stream commands) 30
    ≡ and_then
        (effects host client (record greeted { last_rx = 30 }) commands [])
        (λ z. running (take_pending host client z))
read_batch-stream_example =
    read_batch-stream host client commands greeted 30 refl refl (omega arith)

read_batch-hello_run :
    (read_batch host client (accepted opened 1) hello_frame 2
      ≡ running (record (accepted opened 2) {
        greeted = true;
        sent = encode msg_hello_ack (u16_to_le protocol_version) ∷ [];
      }))
    × (accept_hello (recv (encode msg_hello_ack (u16_to_le protocol_version))) ≡ true)
read_batch-hello_run = read_batch-hello host client opened 1 2 refl

holding-IsValid : IsValid holding
holding-IsValid = record {
  modifier_byte = omega arith;
  six_slots = refl;
  key_bytes = omega arith;
  three_buttons = omega arith;
  x_range = omega arith;
  y_range = omega arith;
  well_formed = tt;
}

read_status-get_status_run :
    (frame : Bytes) × (handle_message host client greeted
        (message_of get_status).0
        (message_of get_status).1
      ≡ running (record greeted { sent = frame ∷ [] }))
    × (read_status (recv frame)
        ≡ some (record { modifiers = 2; held_keys = 2; buttons = 0; hid_ok = true }))
unfolding held_count
read_status-get_status_run =
    read_status-get_status host client greeted refl holding-IsValid (λ frame. refl)

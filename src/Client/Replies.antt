-- ===== src/Client/Replies.antt =====
-- The client accepts the bridge's answers, and reads the device state from them.
use beaglewing.Bridge.Defs.{msg_hello_ack, msg_status, protocol_version}
use beaglewing.Bridge.Hid.{Report, Hid, held_count}
use beaglewing.Bridge.Hid.Valid.{IsValid}
use beaglewing.Bridge.Message.{encode, next_frame, is_well_sized}
use beaglewing.Bridge.Session.{Session, running, accepted, handle_message, drain, read_batch}
use beaglewing.Client.Defs.{recv, accept_hello, hello_frame, read_status, message_of, get_status}
use beaglewing.Common.Bytes.{Bytes, u16_to_le, u16_from_le}
use beaglewing.Common.{
  if◌then◌else◌, length, ℕ, ◌%◌, ◌≤◌, ◌≡◌, refl, Bool, true, some, List, [], ◌∷◌, ◌++◌, arith,
}

held_count-le : (ks : List ℕ) → held_count ks ≤ length ks
unfolding held_count
held_count-le [] = omega arith
held_count-le (k ∷ ks) = ground (arith, held_count-le ks)

-- A connection on which the bridge accepts a client, and the client's HELLO arrives, is greeted
-- once the answer can be written, with no change to the device and an empty buffer; the client
-- takes the answer for the right one.
pub read_batch-hello :
    (accepts : List Report → Report → Bool) (delivers : List Bytes → Bytes → Bool) (hid : Hid)
    (now later : ℕ)
    → delivers [] (encode msg_hello_ack (u16_to_le protocol_version)) ≡ true
    → (read_batch accepts delivers (accepted hid now) hello_frame later
        ≡ running (record (accepted hid later) {
          greeted = true;
          sent = encode msg_hello_ack (u16_to_le protocol_version) ∷ [];
        }))
      × (accept_hello (recv (encode msg_hello_ack (u16_to_le protocol_version))) ≡ true)
unfolding read_batch drain next_frame is_well_sized handle_message hello_frame u16_from_le
    accept_hello recv
read_batch-hello accepts delivers hid now later h = (rw h, refl)

-- When a greeted client asks for the status of a well-formed device and the answer can be written,
-- the client reads from the answer the modifiers, the number of held keys, the buttons and whether
-- the last report was taken, as they are in the device state.
pub read_status-get_status :
    (accepts : List Report → Report → Bool) (delivers : List Bytes → Bytes → Bool) (s : Session)
    → s.greeted ≡ true
    → IsValid s.hid
    → ((frame : Bytes) → delivers s.sent frame ≡ true)
    → (frame : Bytes) × (handle_message accepts delivers s
          (message_of get_status).0
          (message_of get_status).1
        ≡ running (record s { sent = s.sent ++ (frame ∷ []) }))
      × (read_status (recv frame)
          ≡ some (record {
            modifiers = s.hid.modifiers;
            held_keys = held_count s.hid.keys;
            buttons = s.hid.buttons;
            hid_ok = s.hid.hid_ok;
          }))
unfolding message_of handle_message read_status recv
read_status-get_status accepts delivers s g v h = (
  encode msg_status (
      s.hid.modifiers
      ∷ held_count s.hid.keys % 256
      ∷ s.hid.buttons
      ∷ (if s.hid.hid_ok then 1 else 0)
      ∷ []),
  rw (g, h _),
  ground (arith, held_count-le s.hid.keys, v.six_slots),
)

-- ===== src/Client/Delivery.antt =====
-- The bridge takes each message of the client for what it means.
use beaglewing.Bridge.Defs.{msg_status}
use beaglewing.Bridge.Hid.{Report, flush_ptr, key_event, held_key_count}
use beaglewing.Bridge.Hid.{release_all as release_device}
use beaglewing.Bridge.Message.{message, next_frame, expected_len}
use beaglewing.Bridge.Message.Parts.{next_frame-encode}
use beaglewing.Bridge.Session.{Session, Outcome, running, send_to, take_pending, handle_message}
use beaglewing.Client.Defs.{
  Command, keepalive, release_all, get_status, key_down, key_up, pointer_button, pointer_wheel,
  pointer_abs, message_of, command_frame,
}
use beaglewing.Common.Bytes.{Bytes, IsByte, IsU16, u16_from_le-to_le}
use beaglewing.Common.{
  if◌then◌else◌, length, ◌%◌, ◌≤◌, ◌≡◌, refl, Bool, true, false, some, List, [], ◌∷◌, ◌++◌, arith,
}

abbrev pub InRange : Command → Type 0
InRange (key_down u) = IsByte u
InRange (key_up u) = IsByte u
InRange (pointer_button b) = IsByte b
InRange (pointer_wheel d) = IsByte d
InRange (pointer_abs x y) = IsU16 x × IsU16 y
InRange _ = Unit

module _ (accepts : List Report → Report → Bool) (delivers : List Bytes → Bytes → Bool) where
  -- What a command is to do to a session.
  unfoldable pub effect : Session → Command → Outcome
  effect s keepalive = running s
  effect s (key_down u) = running (record s { hid = key_event accepts s.hid u true })
  effect s (key_up u) = running (record s { hid = key_event accepts s.hid u false })
  effect s (pointer_abs x y) = running (record s { pending_abs = some (x, y) })
  effect s (pointer_button b) =
      let s' = take_pending accepts delivers s in
      running (record s' { hid = flush_ptr accepts (record s'.hid { buttons = b % 8 }) 0 })
  effect s (pointer_wheel d) =
      let s' = take_pending accepts delivers s in
      running (record s' { hid = flush_ptr accepts s'.hid d })
  effect s release_all =
      let s' = take_pending accepts delivers s in
      running (record s' { hid = release_device accepts s'.hid })
  effect s get_status = send_to accepts delivers s msg_status (
      s.hid.modifiers ∷ held_key_count s.hid ∷ s.hid.buttons ∷ (if s.hid.hid_ok then 1 else 0) ∷ [])

  -- In a greeted session, the message of a command whose arguments are in range does to the device
  -- and to the session what the command stands for.
  pub handle_message-effect :
      (c : Command) (s : Session)
      → s.greeted ≡ true
      → InRange c
      → handle_message accepts delivers s (message_of c).0 (message_of c).1 ≡ effect s c
  unfolding handle_message effect message_of
  handle_message-effect (pointer_abs x y) s g (hx, hy) =
      rw (g, u16_from_le-to_le x hx, u16_from_le-to_le y hy)
  handle_message-effect keepalive s g h = rw g
  handle_message-effect _ s g h = rw g

message_sized :
    (c : Command)
    → (expected_len (message_of c).0 ≡ some (length (message_of c).1))
      × (length (message_of c).1 ≤ 32)
unfolding expected_len message_of
message_sized keepalive = (refl, omega arith)
message_sized _ = (refl, omega arith)

pub next_frame-command_frame :
    (c : Command) (rest : Bytes)
    → next_frame (command_frame c ++ rest) ≡ message (message_of c).0 (message_of c).1 rest
unfolding command_frame
next_frame-command_frame c rest = next_frame-encode _ _ rest (message_sized c).0 (message_sized c).1

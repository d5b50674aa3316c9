-- ===== src/Client/Defs.antt =====
-- linux/input-router/src/protocol.rs: `frame`, the messages of `BridgeClient`, and its replies.
-- The stream is a list of the frames written; `writes` says whether the operating system takes
-- a frame after these, and a read of the reply is given as data.
use beaglewing.Bridge.Defs.{
  msg_hello, msg_hello_ack, msg_keepalive, msg_key_down, msg_key_up, msg_pointer_abs,
  msg_pointer_button, msg_pointer_wheel, msg_release_all, msg_get_status, msg_status,
}
use beaglewing.Common.Bytes.{Bytes, u16_to_le}
use beaglewing.Common.{
  ltb, ◌==◌, if◌then◌else◌, length, take, ℕ, ◌/◌, ◌%◌, Bool, false, not, ◌&&◌, Option, none, some,
  [], ◌∷◌, ◌++◌,
}

abbrev pub version : ℕ
version = 1

-- The debug assertion on the payload's length is not modelled: all calls below keep it.
unfoldable pub frame : ℕ → Bytes → Bytes
frame msg_type payload = msg_type ∷ length payload % 256 ∷ payload

pub record Status : Type 0 where
  pub modifiers : ℕ
  pub held_keys : ℕ
  pub buttons : ℕ
  pub hid_ok : Bool

-- What the methods of `BridgeClient` send.
pub data Command : Type 0 where
  keepalive release_all get_status : Command
  key_down key_up pointer_button pointer_wheel : ℕ → Command
  pointer_abs : ℕ → ℕ → Command

-- The type and the payload that the command's method hands to `send`; a wheel's detents are an
-- i8 as its bit pattern.
unfoldable pub message_of : Command → ℕ × Bytes
message_of keepalive = (msg_keepalive, [])
message_of release_all = (msg_release_all, [])
message_of get_status = (msg_get_status, [])
message_of (key_down usage) = (msg_key_down, usage ∷ [])
message_of (key_up usage) = (msg_key_up, usage ∷ [])
message_of (pointer_button buttons) = (msg_pointer_button, buttons ∷ [])
message_of (pointer_wheel detents) = (msg_pointer_wheel, detents ∷ [])
message_of (pointer_abs x y) = (msg_pointer_abs, u16_to_le x ++ u16_to_le y)

unfoldable pub command_frame : Command → Bytes
unfolding frame
command_frame c = let (t, payload) = message_of c in frame t payload

-- `recv`: the header, and the payload of the announced length; `none` is an error of the read.
unfoldable pub recv : Bytes → Option (ℕ × Bytes)
recv (t ∷ len ∷ rest) = if ltb (length rest) len then none else some (t, take len rest)
recv _ = none

-- The check of the handshake in `connect`, on the reply to HELLO.
unfoldable pub accept_hello : Option (ℕ × Bytes) → Bool
accept_hello (some (t, lo ∷ hi ∷ [])) =
    t == msg_hello_ack && (lo == version % 256 && hi == version / 256 % 256)
accept_hello _ = false

unfoldable pub hello_frame : Bytes
unfolding frame
hello_frame = frame msg_hello (u16_to_le version)

-- The check of the reply in `status`.
unfoldable pub read_status : Option (ℕ × Bytes) → Option Status
read_status (some (t, p0 ∷ p1 ∷ p2 ∷ p3 ∷ [])) =
    if t == msg_status
    then some (record { modifiers = p0; held_keys = p1; buttons = p2; hid_ok = not (p3 == 0) })
    else none
read_status _ = none

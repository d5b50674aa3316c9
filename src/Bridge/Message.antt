-- ===== src/Bridge/Message.antt =====
-- pi/bridge/src/main.rs: `expected_len`, `send`, and the frame at the front of the buffer.
pub mod Parts
use beaglewing.Bridge.Defs.{
  max_payload, msg_hello, msg_keepalive, msg_key_down, msg_key_up, msg_key_state, msg_pointer_abs,
  msg_pointer_button, msg_pointer_wheel, msg_release_all, msg_get_status,
}
use beaglewing.Common.Bytes.{Bytes}
use beaglewing.Common.{
  ltb, leb, ◌==◌, if◌then◌else◌, length, take, drop, ℕ, ◌%◌, Bool, false, not, ◌&&◌, ◌||◌, Option,
  none, some, ◌∷◌,
}

unfoldable pub expected_len : ℕ → Option ℕ
expected_len msg_type =
    if msg_type == msg_hello
    then some 2
    else if msg_type == msg_keepalive || msg_type == msg_release_all || msg_type == msg_get_status
    then some 0
    else if msg_type == msg_key_down
        || msg_type == msg_key_up
        || msg_type == msg_pointer_button
        || msg_type == msg_pointer_wheel
    then some 1
    else if msg_type == msg_key_state
    then some 7
    else if msg_type == msg_pointer_abs
    then some 4
    else none

-- the guard of the match on `expected_len`
unfoldable pub is_well_sized : ℕ → ℕ → Bool
unfolding expected_len
is_well_sized msg_type len = elim (expected_len msg_type) [
  | none ↦ false
  | some want ↦ want == len && leb len max_payload
]

-- the frame that `send` writes
abbrev pub encode : ℕ → Bytes → Bytes
encode msg_type payload = msg_type ∷ length payload % 256 ∷ payload

pub data Next : Type 0 where
  incomplete malformed : Next
  message : ℕ → Bytes → Bytes → Next

-- One test of the loop's condition and of the frame at the front of the buffer. `message` holds
-- the frame's type and payload, and what `drain` leaves.
unfoldable pub next_frame : Bytes → Next
next_frame (msg_type ∷ len ∷ rest) =
    if not (is_well_sized msg_type len)
    then malformed
    else if ltb (length rest) len
    then incomplete
    else message msg_type (take len rest) (drop len rest)
next_frame _ = incomplete

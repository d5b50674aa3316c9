-- ===== src/Bridge/Session.antt =====
-- pi/bridge/src/main.rs: `handle_client` and what `main` does around it.
-- What the environment does is given as data: the reads of the loop with their times, and
-- whether the operating system takes a report (`accepts`) or a frame for the client (`delivers`).
pub mod Release
pub mod Valid
pub mod Ends
pub mod Outcomes
use beaglewing.Bridge.Defs.{
  protocol_version, heartbeat_timeout, msg_hello, msg_hello_ack, msg_keepalive, msg_key_down,
  msg_key_up, msg_key_state, msg_pointer_abs, msg_pointer_button, msg_pointer_wheel,
  msg_release_all, msg_get_status, msg_status,
}
use beaglewing.Bridge.Hid.{
  Report, Hid, flush_kbd, flush_ptr, key_event, release_all, held_key_count,
}
use beaglewing.Bridge.Message.{incomplete, malformed, message, next_frame, encode}
use beaglewing.Common.Bytes.{Bytes, u16_to_le, u16_from_le}
use beaglewing.Common.{
  ltb, ◌==◌, if◌then◌else◌, length, take, drop, get_or, ℕ, zero, suc, ◌-◌, ◌%◌, Bool, true, false,
  not, ◌||◌, Option, none, some, List, [], ◌∷◌, ◌++◌,
}

-- The local variables of `handle_client`, the device state, and the frames sent to the client.
pub record Session : Type 0 where
  pub hid : Hid
  pub buf : Bytes
  pub greeted : Bool
  pub pending_abs : Option (ℕ × ℕ)
  pub last_rx : ℕ
  pub sent : List Bytes

-- The session goes on, or `handle_client` has returned `Ok` or `Err`. `stuck` is no outcome of
-- the source: the loop over the buffer ran out of fuel.
pub data Outcome : Type 0 where
  running closed failed stuck : Session → Outcome

-- What `stream.read` gave; `received` holds at least one byte.
pub data Read : Type 0 where
  received : Bytes → Read
  eof would_block read_error : Read

-- One round of the loop: the shutdown flag, the time at the heartbeat check, the read, and the
-- time at which it returned.
pub record Round : Type 0 where
  pub shutdown : Bool
  pub now : ℕ
  pub read : Read
  pub read_at : ℕ

-- A session at its start: nothing buffered, not greeted.
abbrev pub accepted : Hid → ℕ → Session
accepted hid now = record {
  hid = hid;
  buf = [];
  greeted = false;
  pending_abs = none;
  last_rx = now;
  sent = [];
}

abbrev pub needs_flush : ℕ → Bool
needs_flush t = t == msg_pointer_button || t == msg_pointer_wheel || t == msg_release_all

abbrev pub payload_byte : Bytes → ℕ → ℕ
payload_byte payload i = get_or payload i 0

-- the device state in which an outcome leaves the gadget
abbrev pub session_of : Outcome → Session
session_of (running s) = s
session_of (closed s) = s
session_of (failed s) = s
session_of (stuck s) = s

-- The rest of the function runs unless it has returned.
abbrev pub and_then : Outcome → (Session → Outcome) → Outcome
and_then (running s) rest = rest s
and_then (closed s) rest = closed s
and_then (failed s) rest = failed s
and_then (stuck s) rest = stuck s

module _ (accepts : List Report → Report → Bool) (delivers : List Bytes → Bytes → Bool) where
  -- `send(...)?`
  unfoldable pub send_to : Session → ℕ → Bytes → Outcome
  send_to s msg_type payload =
      let frame = encode msg_type payload in
      let s' : Session = record s { sent = s.sent ++ (frame ∷ []) } in
      if delivers s.sent frame then running s' else failed s'

  -- `if let Some((x, y)) = pending_abs.take()`
  unfoldable pub flush_pending : Session → Option (ℕ × ℕ) → Session
  flush_pending s none = s
  flush_pending s (some (x, y)) = record s {
    hid = flush_ptr accepts (record s.hid { x = x; y = y }) 0;
    pending_abs = none;
  }

  unfoldable pub take_pending : Session → Session
  unfolding flush_pending
  take_pending s = flush_pending s s.pending_abs

  -- The first message of a session.
  unfoldable pub greet : Session → ℕ → Bytes → Outcome
  unfolding send_to
  greet s msg_type payload =
      if not (msg_type == msg_hello)
      then closed s
      else if not
          (u16_from_le (payload_byte payload 0) (payload_byte payload 1) == protocol_version)
      then closed s
      else send_to (record s { greeted = true }) msg_hello_ack (u16_to_le protocol_version)

  -- The match on the type of a message.
  unfoldable pub dispatch : Session → ℕ → Bytes → Outcome
  unfolding send_to
  dispatch s t payload =
      if t == msg_keepalive || t == msg_hello
      then running s
      else if t == msg_key_down
      then running (record s { hid = key_event accepts s.hid (payload_byte payload 0) true })
      else if t == msg_key_up
      then running (record s { hid = key_event accepts s.hid (payload_byte payload 0) false })
      else if t == msg_key_state
      then running (record s {
        hid =
            flush_kbd accepts
              (record s.hid { modifiers = payload_byte payload 0; keys = take 6 (drop 1 payload) });
      })
      else if t == msg_pointer_abs
      then running (record s {
        pending_abs = some (
          u16_from_le (payload_byte payload 0) (payload_byte payload 1),
          u16_from_le (payload_byte payload 2) (payload_byte payload 3),
        );
      })
      else if t == msg_pointer_button
      then running (record s {
        hid = flush_ptr accepts (record s.hid { buttons = payload_byte payload 0 % 8 }) 0;
      })
      else if t == msg_pointer_wheel
      then running (record s { hid = flush_ptr accepts s.hid (payload_byte payload 0) })
      else if t == msg_release_all
      then running (record s { hid = release_all accepts s.hid })
      else if t == msg_get_status
      then (let hid = s.hid in
          send_to s msg_status
            (hid.modifiers ∷ held_key_count hid ∷ hid.buttons ∷ (if hid.hid_ok then 1 else 0) ∷ []))
      else running s

  unfoldable pub handle_message : Session → ℕ → Bytes → Outcome
  unfolding greet dispatch take_pending
  handle_message s t payload =
      if not s.greeted
      then greet s t payload
      else dispatch (if needs_flush t then take_pending s else s) t payload

  -- `while buf.len() >= 2`: one message for each unit of fuel.
  unfoldable pub drain : ℕ → Session → Outcome
  drain zero s = stuck s
  drain (suc fuel) s = elim (next_frame s.buf) [
    | incomplete ↦ running s
    | malformed ↦ closed s
    | message t payload rest ↦
        and_then (handle_message (record s { buf = rest }) t payload) (drain fuel)
  ]

  -- A batch of bytes: every frame is at least two bytes long, so the fuel is more than enough.
  unfoldable pub read_batch : Session → Bytes → ℕ → Outcome
  read_batch s bytes now =
      let s' : Session = record s { buf = s.buf ++ bytes; last_rx = now } in
      and_then (drain (suc (length s'.buf)) s') (λ s2. running (take_pending s2))

  -- the match on the read
  unfoldable pub on_read : Session → Read → ℕ → Outcome
  unfolding read_batch
  on_read s (received bytes) now = read_batch s bytes now
  on_read s eof now = closed s
  on_read s would_block now = running s
  on_read s read_error now = failed s

  unfoldable pub handle_round : Session → Round → Outcome
  unfolding on_read
  handle_round s r =
      if r.shutdown
      then closed s
      else if ltb heartbeat_timeout (r.now - s.last_rx)
      then closed s
      else on_read s r.read r.read_at

  -- The session after these rounds.
  unfoldable pub handle_client : Session → List Round → Outcome
  unfolding handle_round
  handle_client s [] = running s
  handle_client s (r ∷ rs) = and_then (handle_round s r) (λ s'. handle_client s' rs)

  -- `main` releases all state when `handle_client` has returned.
  unfoldable pub serve_client : Hid → ℕ → List Round → Hid
  unfolding handle_client
  serve_client hid now rounds =
      release_all accepts (session_of (handle_client (accepted hid now) rounds)).hid

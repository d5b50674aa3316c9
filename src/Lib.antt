-- ===== src/Lib.antt =====
-- Beaglewing shares one keyboard, mouse and clipboard between a Linux desktop and a second
-- computer. The router on the desktop captures input at the screen's edge and sends it over TCP to
-- the bridge, a single-board computer that is the second computer's USB keyboard and pointer. The
-- clipboard agent on the desktop and a helper on the second computer exchange text, images and
-- files in frames of 1024 bytes, through a relay on the same board.
--
-- The parts and their files (paths from the repository's root):
--
-- - Clipframe: protocol/clipframe/src/lib.rs. Defs: the constants. Frame: `frame`, `parse` and the
--   OFFER, PULL and ACK frames. Encode: `encode_transfer`. Reassembler: the receiving state machine,
--   `feed` as a match on the frame's type with one function for each type that does more than answer.
--   Signature: `fnv1a`, `list_signature`, `eta_secs`. A frame is a list of bytes; the assertion in
--   `frame` is the value none.
-- - Bridge: pi/bridge/src/main.rs. Hid: the struct `Hid`, the device files replaced by the list of
--   the reports that it tried to write, of which the host gets those that `accepts` lets through.
--   Message: `expected_len`, `send` and the frame at the front of the buffer. Session:
--   `handle_client`, whose local variables are the record `Session` and whose loop is a recursion on
--   the rounds given, and what `main` does around it.
-- - Client: linux/input-router/src/protocol.rs. Defs: the frames of the methods of `BridgeClient`,
--   one `Command` for each, and the checks of the replies. Delivery, Stream and Replies put the
--   client and the bridge together.
-- - Hidmap: linux/input-router/src/hidmap.rs, the key table as data.
-- - Geometry: linux/input-router/src/geometry.rs. The language has no floats: Scalar is an interface
--   to f64 with the operations that the code calls, and IsOrdered is what is relied on, which holds
--   of IEEE comparisons with NaN too. The panic of `clamp` on unordered bounds is the value none.
-- - Router: linux/input-router/src/router.rs. Defs: the variables of `run` as the record `Router`,
--   with the list of what was done to the outside and of the captures that the portal began.
--   Emergency, Barriers and Local: `Emergency`, `arm_barriers` and the closure `go_local`. Upkeep: a
--   round of the loop up to the receipt of an event. Handle: the match on the event. Loop: a round,
--   and `run` over the rounds given.
-- - Portal: linux/input-router/src/portal.rs and capture.rs. Defs: `InputCapture` and `request`, with
--   the calls that were made. Requests: the methods. Setup: what `run` in router.rs does with the
--   portal before its loop. Token: the file with the token for the next start. Signals: the threads
--   that send events to the router.
-- - Tray: linux/input-router/src/tray.rs. `observe`, the menu, and `run` as a recursion on what the
--   loop and the menu do one after another.
-- - CommandLine: linux/input-router/src/main.rs. The arguments, what `observe` says of a key, and
--   what `send-test` sends and asserts; Course and SendTest put it together with
--   the bridge.
-- - Clipboard: linux/input-router/src/clipboard.rs. Sending: `send_transfer` and `send_with_retry`.
--   Text: hashes, line endings, URIs and file lists. Agent: the variables of `run`, `handle_frame`
--   and `push_local_offer`. Session: the events of a session. Watcher: `read_local_clipboard`.
-- - Files: protocol/clipframe/src/files.rs. Tree: paths as lists of components, and what `metadata`
--   and `read_dir` answer as a finite tree. Batch: `walk` and `batch_signature`; the children of a
--   directory are walked first and sorted then, which is the same as a walk changes nothing. Pack:
--   `pack`. Stage: `unpack_to_stage` and `cleanup_stage`.
-- - Helper: windows/clipboard-agent/src/main.rs. Device: `hid_send`, `ensure_open` and `send_frames`.
--   Hdrop: `build_hdrop`. Lines and Apply: the applier thread, with the two steps for files.
--   Content: `get_clipboard_content`. Defs: what the threads share; `apply_next` is all of the
--   applier's work on one transfer, and `halfway` the state between its two steps for files. Reader
--   and Loop: a round of the reader thread and of the send loop, before or after a step of the others.
-- - Relay: pi/bridge/src/bin/beaglewing-data.rs. Write: `write_frame`. Defs: the pumps of both
--   directions, a session with the two taking turns in any order, and the clients one after another.
-- - Common: the helpers that all parts share; Sort is the `sort` of vectors.
--
-- The router's model uses those of Client, Geometry and Hidmap; the clipboard agent's uses
-- Clipframe's at both ends of the relay. What the outside answers is a parameter or part of the
-- data: whether a write succeeds, given all that was written before (`takes`, `accepts`,
-- `delivers`, `sends`, `writing`), the reads, the events, the times, the portal's answers, the
-- clipboards, the file system and the tar and image crates, and of the standard library `trim` and
-- `from_utf8_lossy`, whose tables are not repeated.
--
-- Machine integers: natural numbers with the wrap-around of the release profile written out; i32
-- values are bit patterns. Times are in milliseconds.
--
-- Loops: the bridge's loop over its buffer takes one unit of fuel for each message and has more than
-- the buffer's length; every message takes two bytes or more. The wait for an acknowledgement has
-- 2502 polls: it sleeps two milliseconds in each and gives up after five seconds. The relay's wait for
-- room in the queue has 52 rounds: a poll that finds no room lasts 200 milliseconds, and it gives up
-- after ten seconds. That all of these suffice is part of what is shown, by outcomes for a lack of
-- fuel that do not occur. All other loops are recursions on lists and trees.
--
-- Not modelled: the devices that main.rs under linux/input-router/src lists and grabs; the bus, libei
-- and systemctl below portal.rs, capture.rs and tray.rs, and the drawing of the icon; the paths of
-- files and the signal handlers in router.rs; xclip and the threads in clipboard.rs; looking for the
-- device, the calls of the Windows clipboard and the conversion of images in the helper on the second
-- computer; the opening of devices and sockets in the relay; statistics and log lines; scripts and
-- test clients.
pub mod Common
pub mod Clipframe
pub mod Bridge
pub mod Client
pub mod Hidmap
pub mod Geometry
pub mod Router
pub mod Portal
pub mod Tray
pub mod CommandLine
pub mod Clipboard
pub mod Files
pub mod Helper
pub mod Relay
mod Tests

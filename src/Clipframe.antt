-- ===== src/Clipframe.antt =====
-- protocol/clipframe/src/lib.rs: the framing of the raw HID clipboard channel.
-- `Defs` holds the constants, `Frame` the encoding of frames, `Encode` that of transfers,
-- `Reassembler` the receiving state machine and `Signature` the change hashes.
pub mod Defs
pub mod Frame
pub mod Encode
pub mod Reassembler
pub mod Signature

-- ===== src/Client.antt =====
-- linux/input-router/src/protocol.rs: the client of the bridge protocol.
-- `Defs` holds the messages, `Delivery` and `Stream` what the bridge does with
-- them, and `Replies` how its answers are read.
pub mod Defs
pub mod Delivery
pub mod Stream
pub mod Replies

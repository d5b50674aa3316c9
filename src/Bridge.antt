-- ===== src/Bridge.antt =====
-- pi/bridge/src/main.rs: the bridge daemon, which turns protocol messages into HID reports.
-- `Defs` holds the constants, `Hid` the gadget's state, `Message` the frames of the protocol and
-- `Session` a client's session.
pub mod Defs
pub mod Hid
pub mod Message
pub mod Session

-- ===== src/Relay.antt =====
-- pi/bridge/src/bin/beaglewing-data.rs: the relay between the agent's socket and the data channel.
-- `Write` is `write_frame`, `Defs` the two pumps and the sessions.
pub mod Write
pub mod Defs
pub mod Forwards
pub mod Ends
pub mod Transfers

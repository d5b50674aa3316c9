-- ===== src/Portal.antt =====
-- linux/input-router/src/portal.rs and capture.rs: the client of the InputCapture portal, and the
-- stream of captured input.
-- `Defs` has the session and its values, `Requests` the methods, `Signals` the threads that turn
-- signals and captured input into events of the router.
pub mod Defs
pub mod Requests
pub mod Setup
pub mod Token
pub mod Signals

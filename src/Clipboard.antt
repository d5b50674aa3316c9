-- ===== src/Clipboard.antt =====
-- linux/input-router/src/clipboard.rs: the clipboard agent.
-- `Sending` is the windowed sender, `Text` has the hashes, URIs and file lists, `Agent` the state and
-- the handling of frames, `Session` the loop over the events and `Watcher` the thread that polls the
-- clipboard.
pub mod Sending
pub mod Text
pub mod Agent
pub mod Session
pub mod Watcher

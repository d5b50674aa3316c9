-- ===== src/Helper.antt =====
-- windows/clipboard-agent/src/main.rs: the clipboard helper on the second computer.
-- `Device` is the data channel with the windowed sender, `Content` what is read from the clipboard
-- and put there, `Reader` the thread that reads frames and `Loop` the loop that sends.
pub mod Device
pub mod Hdrop
pub mod Lines
pub mod Content
pub mod Apply
pub mod Defs
pub mod Reader
pub mod Loop

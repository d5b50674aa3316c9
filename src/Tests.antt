-- ===== src/Tests.antt =====
-- Runs of the models on concrete data, and the theorems at concrete arguments.
pub mod Transfers
mod Gadget
mod Capture
mod Icon
mod Arguments
pub mod Cursor
mod Routing
pub mod Flow
mod Sync
mod Batches
pub mod Pasting
mod Pumps

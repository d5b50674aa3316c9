-- ===== src/Router/Safety.antt =====
-- The invariant of the router's state, and that a round of the loop keeps it.
pub mod Invariant
pub mod Upkeep
pub mod Secure
pub mod Captured
pub mod Handle
pub mod Rounds
pub mod Recovery

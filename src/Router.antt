-- ===== src/Router.antt =====
-- linux/input-router/src/router.rs: the core of the router.
-- `Defs` holds the state and its environment, `Emergency` the hotkey, `Local` the way back to the
-- local screen, `Upkeep` the part of the loop before an event is received, `Handle` the handling of
-- an event and `Loop` a round of the loop; `Safety` has the invariant.
pub mod Defs
pub mod Emergency
pub mod Hotkey
pub mod Barriers
pub mod Local
pub mod Upkeep
pub mod Handle
pub mod Loop
pub mod Safety

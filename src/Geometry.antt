-- ===== src/Geometry.antt =====
-- linux/input-router/src/geometry.rs: the logical space of two adjacent screens.
-- `Scalar` is the interface to f64, `Space` the model and its operations, `Inside` and `Moves` the proofs that
-- the cursor stays on the screen.
pub mod Scalar
pub mod Space
pub mod Inside
pub mod Moves

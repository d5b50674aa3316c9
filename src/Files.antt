-- ===== src/Files.antt =====
-- protocol/clipframe/src/files.rs: batches of files.
-- `Tree` is what the code sees of the file system, `Batch` the walk over it, the signature and the
-- archive of a batch, and `Stage` the directory of the received batches.
pub mod Tree
pub mod Batch
pub mod Pack
pub mod Stage

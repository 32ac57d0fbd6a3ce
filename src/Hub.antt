-- ===== src/Hub.antt =====
-- internal/server/hub: what the server does with the operations that a client pushes.
pub mod Sizes
pub mod Stuck
pub mod Ops
pub mod State
pub mod Gate
pub mod Push
pub mod Recovery
pub mod Broadcast
pub mod Commit
pub mod Runs

-- ===== src/Sync.antt =====
-- Package pkg/sync: the client's side of the protocol.
pub mod Coalesce
pub mod Enqueue
pub mod Catchup
pub mod Reconcile

-- ===== src/ClientStage.antt =====
-- Package pkg/stage: the files that a client keeps of its own state.
pub mod Rows
pub mod Manifest
pub mod Acked

-- ===== src/Protocol.antt =====
-- Package protocol: the operations on the wire.
pub mod Op
pub mod Caps
pub mod Access
pub mod PathUtil
pub mod Version

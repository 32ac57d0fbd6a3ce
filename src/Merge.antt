-- ===== src/Merge.antt =====
-- Package pkg/merge: the three-way merge of lines, the conflict formats and the classification of
-- an incoming operation against a staged one.
pub mod Lines
pub mod Format
pub mod Hunks
pub mod Partition
pub mod ThreeWay
pub mod Conflict
pub mod Classify

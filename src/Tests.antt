-- ===== src/Tests.antt =====
-- Runs of the definitions, and the theorems at concrete arguments.
mod Samples
mod Protocol
mod Stage
mod Sync
mod Merge
mod Classify
mod Limits
mod Hub
mod Client
mod Server
mod Runs

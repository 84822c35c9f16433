-- ===== src/Sync.antt =====
-- crates/core/src/sync: which columns a client may write, and what happens when two devices wrote
-- the same row.
pub mod Json
pub mod Schema
pub mod Merge

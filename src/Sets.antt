-- ===== src/Sets.antt =====
-- crates/core/src/sets: fractional ranks of set items.
pub mod Rank

-- ===== src/Storage.antt =====
-- crates/core/src/storage: where files are kept.
pub mod Keys

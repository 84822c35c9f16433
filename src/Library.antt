-- ===== src/Library.antt =====
-- crates/core/src/library: what is checked before a song or a folder is saved, and files imported.
pub mod Validation
pub mod Importer

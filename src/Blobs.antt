-- ===== src/Blobs.antt =====
-- crates/core/src/blobs: which files a device keeps.
pub mod Pins
pub mod Policy

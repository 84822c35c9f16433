-- ===== src/Api.antt =====
-- crates/api: the signalling relay of signal.rs, and the push and pull of handlers/sync.rs.
pub mod Relay
pub mod Store
pub mod Request
pub mod Push
pub mod Pull

-- ===== src/Web.antt =====
-- crates/web/src: the rules of a device.
pub mod Outbox
pub mod Engine

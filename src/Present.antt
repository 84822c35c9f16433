-- ===== src/Present.antt =====
-- crates/core/src/present: the state every screen renders from, and the slides it is made of.
pub mod Session
pub mod Pairing
pub mod Slides
pub mod Texts
pub mod Repeats
pub mod Snapshot

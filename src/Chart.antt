-- ===== src/Chart.antt =====
-- crates/core/src/chart: notes, keys, chords, the key a chart is read in, and charts read and rendered.
pub mod Notes
pub mod Chord
pub mod ChordPro
pub mod Render
pub mod OverLyrics
pub mod EffectiveKey

-- ===== src/Sheets.antt =====
-- crates/core/src/sheets: choosing which sheet to show.
pub mod Selection

-- ===== src/Export.antt =====
-- The exports of the service history (internal/export).
pub mod History
pub mod Csv
pub mod Names
pub mod Workbook

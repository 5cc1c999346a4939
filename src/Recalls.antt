-- ===== src/Recalls.antt =====
-- Safety recalls: their tables and statements (internal/repository/recalls.go) and the weekly check
-- (internal/recallcheck/runner.go).
pub mod Store
pub mod Check

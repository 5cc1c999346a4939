-- ===== src/Digest.antt =====
-- The weekly digest (internal/reminderemail/digest.go) over the tables that it reads and writes
-- (internal/repository/reminder_digest.go).
pub mod Store
pub mod Run

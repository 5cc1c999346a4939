-- ===== src/Auth.antt =====
-- Who may use the program (internal/auth/auth.go and internal/repository/postgres_auth.go).
pub mod Allowlist
pub mod Users
pub mod Sessions

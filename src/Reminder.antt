-- ===== src/Reminder.antt =====
-- Maintenance reminders (internal/reminder): printing, snoozes, driving rates and the evaluation.
pub mod Format
pub mod Snooze
pub mod Estimate
pub mod Evaluate

-- ===== src/Outbox/Invariant.antt =====
-- What holds of the alert delivery outbox between two operations.
pub mod Rows
pub mod Steps

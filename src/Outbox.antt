-- ===== src/Outbox.antt =====
-- memory/event_store.py, the alert delivery outbox: its rows, the operations on them and the proofs.
pub mod Delivery
pub mod Enqueue
pub mod Claim
pub mod Attempt
pub mod Operator
pub mod Invariant
pub mod Locking
pub mod Claimed
pub mod Budget
pub mod Progress
pub mod Examples
pub mod Idempotence
pub mod Transitions
pub mod Apart

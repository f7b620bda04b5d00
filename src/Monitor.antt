-- ===== src/Monitor.antt =====
-- monitoring/: the events of the online monitor, the alerts that are built from them, and the worker
-- that reviews runs.
pub mod Events
pub mod Triage
pub mod Settled
pub mod Review
pub mod Worker
pub mod Alerted
pub mod Summary
pub mod Summarized
pub mod Reviewed
pub mod Complete
mod ReviewExamples
pub mod Examples

-- ===== src/Tools.antt =====
-- tools/: the registry of tools, the stores that make a write tool run once, and the broker.
pub mod Types
pub mod Idempotency
pub mod Memory
pub mod Sqlite
pub mod Broker
pub mod Refinement
pub mod Examples

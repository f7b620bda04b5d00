-- ===== src/Memory.antt =====
-- memory/store.py, memory/replay.py and the use that agent/orchestrator.py makes of them: the memory of
-- conversations, its events in the store, and its restoration from them.
pub mod State
pub mod Events
pub mod Replay
pub mod Turns
pub mod Recall
pub mod Replayed
pub mod Consistent
pub mod Hydrated
pub mod Appended
pub mod Answered
pub mod Handled
pub mod Restart
pub mod Foreign
pub mod Counts
pub mod Examples

-- ===== src/Agent.antt =====
-- agent/: the route of a message and the plan of the agent that it is routed to.
pub mod Routing
pub mod Planning
pub mod Allowed
pub mod Escalation
pub mod Examples

-- ===== src/Graph.antt =====
-- crates/assistant-agent-graph: specialist jobs, their store, the registry's limits, the delegation
-- flow, handoff packets and the agent-to-agent allow-list.
pub mod Job
pub mod Registry
pub mod Store
pub mod Delegation
pub mod Handoff
pub mod Routing
pub mod Cycle
pub mod Readiness
pub mod Lifecycle
pub mod Run
pub mod Limits
pub mod Ended
pub mod RoundTrip
pub mod Policy
mod Tests

-- ===== src/Approvals.antt =====
-- crates/assistant-approvals: approval requests, decisions, the expiry sweep and pending questions.
pub mod Model
pub mod Store
pub mod Readiness
pub mod Run
pub mod Decision
pub mod Settled
pub mod Sweep
pub mod Questions
pub mod RoundTrip
mod Tests

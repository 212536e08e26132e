-- ===== src/Router.antt =====
-- crates/assistant-router/src: what a message is to an agent, sticky engagement and the audit of
-- dropped messages.
pub mod Model
pub mod Channel
pub mod Engagement
pub mod Sticky
pub mod Drops
pub mod Sessions
pub mod Engaged
pub mod Decision
pub mod Audit
mod Tests

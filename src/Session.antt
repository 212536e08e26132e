-- ===== src/Session.antt =====
-- crates/assistant-session/src: the two databases of a session, which the host and its container share.
pub mod Tables
pub mod Host
pub mod Container
pub mod Run
pub mod Migrate
pub mod Parity
pub mod Enqueued
mod Tests

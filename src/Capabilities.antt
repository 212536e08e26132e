-- ===== src/Capabilities.antt =====
-- crates/assistant-capabilities/src: the capability registry and the assembly of profiles.
pub mod Registry
pub mod Firsts
pub mod Assembly
mod Tests

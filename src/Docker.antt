-- ===== src/Docker.antt =====
-- crates/assistant-runtime-docker/src: what a container may see, and the preparation of its start.
pub mod Path
pub mod Mount
pub mod Spawn
pub mod Blocked
pub mod Allowed
pub mod Prepared
mod Tests

-- ===== src/Core.antt =====
-- crates/assistant-core/src: the release manifests and their validation.
pub mod Manifest
pub mod Validate
pub mod Edges
pub mod Empty
pub mod Dependencies
pub mod Modules
pub mod Fragments
pub mod Report
mod Tests

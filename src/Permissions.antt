-- ===== src/Permissions.antt =====
-- crates/assistant-permissions: users, roles, DM routes, access decisions and standing instructions.
pub mod Model
pub mod Store
pub mod Access
pub mod Standing
pub mod Readiness
pub mod Events
pub mod Run
pub mod Roles
pub mod Owner
pub mod Invariant
pub mod Routes
pub mod Capture
pub mod Inactive
mod Tests

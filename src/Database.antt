-- ===== src/Database.antt =====
-- crates/assistant-db/src/migrate.rs: the registry of migrations, and what is proved about it.
pub mod Migrate
pub mod Keys
pub mod Sorting
pub mod Places
pub mod Ordered
pub mod Log
pub mod Recorded
pub mod Applies
pub mod Again
pub mod Versions
pub mod Latest
pub mod ReadBack
mod Tests

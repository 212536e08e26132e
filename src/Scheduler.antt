-- ===== src/Scheduler.antt =====
-- crates/assistant-scheduler: recurrences, schedules, their projection and the leases of the sweep.
pub mod Calendar
pub mod Model
pub mod Tables
pub mod Projection
pub mod Lease
pub mod Repair
pub mod Run
pub mod Shut
pub mod Sweeps
pub mod Once
pub mod Claim
pub mod Cadence
pub mod Gregorian
pub mod Items
pub mod Projected
pub mod Ahead
pub mod Aligned
pub mod History
mod Tests

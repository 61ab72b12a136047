-- ===== src/Bulk.antt =====
-- pilot_v1/bulk.py: one bounded durable batch journal and an explicitly approved worker.
pub mod Types
pub mod Validate
pub mod Store
pub mod Reports
pub mod Lifecycle
pub mod Worker
pub mod Run
pub mod Interleaving
pub mod Preserves
pub mod Stable
pub mod Schedule
pub mod Events
pub mod Approval
pub mod Claims
pub mod Spent
pub mod Once
pub mod Recovery
pub mod Frozen
pub mod Walk
pub mod Decisions
pub mod Counting
pub mod Bounds
pub mod Termination
pub mod Offline
mod Tests

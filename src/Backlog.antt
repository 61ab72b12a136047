-- ===== src/Backlog.antt =====
-- pilot_v1/backlog.py: the bounded finding backlog.
pub mod Types
pub mod Entries
pub mod Laws
pub mod Merge
pub mod Store
pub mod Views
pub mod Carried
pub mod History
pub mod Invariant
pub mod Atomic
pub mod Integrity
pub mod Lasting
pub mod Order
mod Examples

-- ===== src/Guarded.antt =====
-- pilot_v1/sg_compliance.py: `SGProvider` and `GovernedSGProvider`, guarded reads of security groups
-- and the one call that changes them.
pub mod Types
pub mod Provider
mod Reads
mod Calls
mod Examples

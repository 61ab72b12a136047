-- ===== src/Config.antt =====
-- pilot_v1/sg_compliance.py: `ConfigComplianceReader`, bounded reads of the two AWS Config rules.
pub mod Types
pub mod Reader
mod Returned
mod Bounded
mod Requests
mod Complete
mod Examples

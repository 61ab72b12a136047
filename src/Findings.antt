-- ===== src/Findings.antt =====
-- pilot_v1/findings.py and pilot_v1/routing.py: the common finding contract, and who handles one.
pub mod Types
pub mod Validate
pub mod Normalize
pub mod Routing
pub mod Queries
pub mod Walk
pub mod Adapters
pub mod Sources
mod Examples

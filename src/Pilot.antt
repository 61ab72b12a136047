-- ===== src/Pilot.antt =====
-- compliance_agent_v1/csv_bulk_pilot.py and grouped_selection_pilot.py: candidates and selections
-- that are frozen as batches, decided once and carried out once.
pub mod Candidates
pub mod Types
pub mod Preview
pub mod Batches
pub mod Selection
pub mod History
pub mod Dict
pub mod Steps
pub mod Handed
pub mod Sound
mod Refinement
mod Parsing
mod Examples

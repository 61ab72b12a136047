-- ===== src/Scaled.antt =====
-- compliance_agent_v1/scaled_findings.py: a thousand findings, queried and exported in bounds.
pub mod Types
pub mod Store
pub mod Pages
pub mod Selecting
mod Examples

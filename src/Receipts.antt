-- ===== src/Receipts.antt =====
-- pilot_v1/native_decision_receipt.py: single-use receipts of native decisions in two hash chains.
pub mod Types
pub mod Chain
pub mod Transaction
pub mod Store
pub mod History
pub mod Linked
pub mod Carried
pub mod Integrity
pub mod AppendOnly
pub mod SingleUse
mod Examples

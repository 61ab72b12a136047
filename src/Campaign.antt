-- ===== src/Campaign.antt =====
-- pilot_v1/multi_account_campaign.py: the contracts of a campaign over four accounts.
pub mod Types
pub mod Contracts
mod Selected
mod Exact
mod Examples

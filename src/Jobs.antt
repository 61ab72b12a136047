-- ===== src/Jobs.antt =====
-- pilot_v1/jobs.py, pilot_v1/workflow.py and the jobs of pilot_v1/service.py.
mod Types
mod Store
mod Gateway
mod Service
mod Decide
mod Check
mod Saving
mod Laws
mod Stable
mod Carried
mod Decided
mod Kept
mod Created
mod Checked
mod History
mod Opened
mod Lasting
mod Spending
mod SingleUse
mod Examples

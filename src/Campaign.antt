-- ===== src/Campaign.antt =====
-- The campaigns of hack/run_live_campaign.py and hack/run_cadence_campaign.py: their plans, and the
-- run of a plan's slots, one benchmark after another.
pub mod Plan
pub mod Slot
pub mod Calls
pub mod Attempt
pub mod Run
mod Tests

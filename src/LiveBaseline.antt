-- ===== src/LiveBaseline.antt =====
-- hack/analyze/live_baseline.py: the checks on the evidence of a live baseline run.
pub mod Refusal
pub mod Plan
pub mod Samples
pub mod Checks
pub mod Identity
pub mod States
pub mod Marker
pub mod Anchor
pub mod Evidence
pub mod Completion
pub mod Business
pub mod Occupancy
pub mod Observations
pub mod Analysis

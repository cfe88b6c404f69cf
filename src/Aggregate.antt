-- ===== src/Aggregate.antt =====
-- hack/analyze/aggregate.py: the report over a matrix of runs. Which runs are loaded, which may be
-- pooled, and how they are grouped and measured.
pub mod Paths
pub mod Pilot
pub mod Loading
pub mod Groups
pub mod Effects

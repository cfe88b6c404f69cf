-- ===== src/Latency.antt =====
-- hack/analyze/latency.py: the timing of one diagnostic run from its retained evidence.
pub mod Values
pub mod Cycles
pub mod Schedule
pub mod Occupancy

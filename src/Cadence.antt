-- ===== src/Cadence.antt =====
-- hack/analyze/cadence.py: what the observer of the cadence pilot saw, and for how long it saw nothing.
-- Times are whole numbers of a tick of which all times and durations are multiples.
pub mod Signals
pub mod Queries
pub mod Sampling

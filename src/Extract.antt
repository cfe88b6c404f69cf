-- ===== src/Extract.antt =====
-- hack/analyze/extract.py: the calculators that turn one experiment's retained samples, logs and
-- receipts into scalar metrics.
pub mod Window
pub mod Measurement
pub mod Scaling
pub mod Decisions
pub mod Treatment
pub mod Loaders
pub mod Resources

-- ===== src/Extract/Loaders.antt =====
-- hack/analyze/extract.py: the loaders of the retained files.
pub mod Values
pub mod Percentile
pub mod K6
pub mod Events
pub mod Prom
pub mod ControllerLog

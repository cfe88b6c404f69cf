-- ===== src/Replay.antt =====
-- hack/analyze/decision_replay.py: the inputs of a controller's decisions, rebuilt from its log.
pub mod History
pub mod Requested

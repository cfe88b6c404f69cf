-- ===== src/Extract/Window.antt =====
-- The fixed measurement window of `compute_controlled_measurement` in hack/analyze/extract.py: what
-- the receipts and the metadata must say before any sample is looked at.
pub mod Bounds
mod Tests
use text.Mathlib.Text.{◌==◌ as str_eq}
use predictive_hpa.Prelude.{
  ℕ, String, ◌||◌, not, Option, none, some, if◌then◌else◌, Result, ok, err, ◌>>=◌, ◌>>◌, raise_if,
}
use predictive_hpa.Prelude.Int.{ℤ, pos, pos_part, ◌+ℤ◌, ◌-ℤ◌, ltb_ℤ, leb_ℤ, eq_ℤ}

-- A recorded value that the code reads by `int(...)`: the file or key may be missing, and the text
-- may be no integer.
pub data Field : Type 0 where
  absent : Field
  malformed : Field
  given : ℤ → Field

-- The exceptions of the `try` block.
pub data Unavailable : Type 0 where
  missing_field : Unavailable
  malformed_field : Unavailable
  unknown_pattern : Unavailable
  schedule_not_covered : Unavailable
  boundary_mismatch : Unavailable
  ended_early : Unavailable
  onset_disagrees : Unavailable
  load_end_disagrees : Unavailable

-- The files and the keys of metadata.yaml that the window rests on.
pub record Receipts : Type 0 where
  pub runner_start : Field
  pub runner_end : Field
  pub pattern : Option String
  pub post_load_tail_seconds : Field
  pub observation_end_time : Field
  pub end_time : Field
  pub load_start_time : Field
  pub offered_load_end_time : Field

-- Unix seconds.
pub record Window : Type 0 where
  pub runner_start : ℕ
  pub runner_end : ℕ
  pub onset : ℕ
  pub offered_end : ℕ
  pub tail_end : ℕ

-- `PATTERN_LOAD_DURATION_S`
pub pattern_load_duration : String → Option ℕ
pattern_load_duration p =
    if str_eq p "step"
    then some 211
    else if str_eq p "ramp"
    then some 270
    else if str_eq p "spike"
    then some 241
    else none

abbrev read : Field → Result Unavailable ℤ
read absent = err missing_field
read malformed = err malformed_field
read (given n) = ok n

scheduled : Option String → Result Unavailable ℕ
scheduled none = err missing_field
scheduled (some p) = elim (pattern_load_duration p) [ none ↦ err unknown_pattern | some s ↦ ok s ]

-- A key that may be left out must agree with the computed time.
agrees : Field → ℤ → Unavailable → Result Unavailable (Unit {0})
agrees absent expected e = ok tt
agrees malformed expected e = err malformed_field
agrees (given n) expected e = raise_if (not (eq_ℤ n expected)) e

pub window : Receipts → Result Unavailable Window
window r = do
  start ← read r.runner_start
  stop ← read r.runner_end
  schedule ← scheduled r.pattern
  tail ← read r.post_load_tail_seconds
  let onset = start +ℤ pos 30
  let offered_end = start +ℤ pos schedule
  tail_end ← read r.observation_end_time
  raise_if (leb_ℤ start (pos 0) || ltb_ℤ stop (offered_end -ℤ pos 2)) schedule_not_covered
  raise_if (not (eq_ℤ tail (pos 360)) || not (eq_ℤ tail_end (offered_end +ℤ tail)))
      boundary_mismatch
  ended ← read r.end_time
  raise_if (ltb_ℤ ended tail_end) ended_early
  agrees r.load_start_time onset onset_disagrees
  agrees r.offered_load_end_time offered_end load_end_disagrees
  ok (record {
    runner_start = pos_part start;
    runner_end = pos_part stop;
    onset = pos_part onset;
    offered_end = pos_part offered_end;
    tail_end = pos_part tail_end;
  })

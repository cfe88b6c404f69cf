-- ===== src/LiveBaseline/Observations/Tests.antt =====
-- A cycle with an accepted observation and a write, and three readings of which the last one grows.
use predictive_hpa.Prelude.{ℕ, ◌≡◌, refl, Option, some, none, [], ◌∷◌, ok, err, ◌-◌, true}
use predictive_hpa.Prelude.Int.{pos}
use predictive_hpa.Float.{Float, finite, of_ℤ, nan}
use predictive_hpa.Json.{Json, bool, int, str, obj, fields, truthy, get, item, less}
use predictive_hpa.Latency.Values.{Clock, Arithmetic, epoch}
use predictive_hpa.Latency.Cycles.{Cycle, query, decision, scale}
use predictive_hpa.LiveBaseline.Refusal.{refused}
use predictive_hpa.LiveBaseline.Checks.{refuse_if}
use predictive_hpa.LiveBaseline.Samples.{Reading}
use predictive_hpa.LiveBaseline.Observations.{
  Accepted, Write, check_cycle, increases, find_growth, first_growth, metrics_ready, accept,
  accepted_of, write_of, read_cycle, read_cycles,
}

abbrev clock : Clock
clock = record { timestamp = λ s. none }

abbrev difference : Float → Float → Float
difference (finite (pos n) k) (finite (pos m) l) = finite (pos (n - m)) 0
difference _ _ = nan

abbrev arithmetic : Arithmetic
arithmetic = record { minus = difference; plus = λ x y. x; times = λ x y. x; absolute = λ x. x }

abbrev reading : ℕ → Option ℕ → Reading
reading t v = record { start = of_ℤ (pos (t - 1)); finish = of_ℤ (pos t); value = v }

growth :
    first_growth arithmetic
      (of_ℤ (pos 100))
      (reading 90 (some 1) ∷ reading 110 none ∷ reading 120 (some 1) ∷ reading 130 (some 3) ∷ [])
    ≡ some (record { begin = of_ℤ (pos 19); finish = of_ℤ (pos 30) })
unfolding first_growth find_growth
growth = refl

ready :
    metrics_ready arithmetic
      (of_ℤ (pos 100))
      none
      (reading 110 none ∷ reading 120 (some 1) ∷ reading 130 (some 0) ∷ [])
    ≡ some (some (of_ℤ (pos 19)), of_ℤ (pos 30))
unfolding metrics_ready
ready = refl

abbrev queried : Json
queried = obj (
    fields (
      ("observationFinishedAt", int (pos 111))
      ∷ ("sourceTimestamp", int (pos 105))
      ∷ ("latestEvaluationAt", int (pos 110))
      ∷ ("samples", int (pos 4))
      ∷ []))

abbrev scaled : Json
scaled = obj (
    fields (
      ("scaled", bool true)
      ∷ ("scaleWriteFinishedAt", int (pos 113))
      ∷ ("previousDesiredReplicas", int (pos 1))
      ∷ ("finalDesired", int (pos 3))
      ∷ []))

abbrev decided : Json
decided = obj (fields (("finalDesired", int (pos 3)) ∷ []))

abbrev cycle : Cycle
cycle = record {
  reconcile_id = str "r";
  started_at = int (pos 110);
  rows = (query, queried) ∷ (decision, decided) ∷ (scale, scaled) ∷ [];
}

abbrev accepted : Accepted
accepted = record {
  started_at = int (pos 110);
  evaluation = of_ℤ (pos 110);
  source = of_ℤ (pos 105);
  observation_finished = of_ℤ (pos 111);
  samples = int (pos 4);
  source_age = of_ℤ (pos 6);
}

abbrev write : Write
write = record { finished = of_ℤ (pos 13); previous_desired = int (pos 1); desired = int (pos 3) }

cycles_read :
    read_cycles arithmetic (of_ℤ (pos 100)) clock (of_ℤ (pos 500)) (of_ℤ (pos 105)) (cycle ∷ [])
    ≡ ok (accepted ∷ [], write ∷ [])
unfolding read_cycles read_cycle check_cycle accepted_of accept write_of refuse_if truthy get item
    less epoch
cycles_read = refl

-- A write without a decision is refused.
undecided :
    read_cycles arithmetic
      (of_ℤ (pos 100))
      clock
      (of_ℤ (pos 500))
      (of_ℤ (pos 105))
      (record cycle { rows = (query, queried) ∷ (scale, scaled) ∷ [] } ∷ [])
    ≡ err (refused "Successful Scale evidence lacks its decision or success flag")
unfolding read_cycles read_cycle check_cycle accepted_of accept write_of refuse_if truthy get item
    less epoch
undecided = refl

increased : increases (write ∷ []) ≡ ok (write ∷ [])
unfolding increases less
increased = refl

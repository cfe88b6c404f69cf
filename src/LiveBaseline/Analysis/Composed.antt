-- ===== src/LiveBaseline/Analysis/Composed.antt =====
-- hack/analyze/live_baseline.py, main and analyze: what the report of a run rests on.
use predictive_hpa.Prelude.{
  false, not, ◌≡◌, refl, List, ok, ok-injective, All, any_of, get_elem?, get_last?,
}
use predictive_hpa.Prelude.Inversion.{◌>>=◌, returned, not_raised}
use predictive_hpa.Prelude.Int.{pos}
use predictive_hpa.Float.{Float, of_ℤ}
use predictive_hpa.Json.{obj, Fields, is_obj, item}
use predictive_hpa.Latency.Cycles.{Cycle, controller_cycles}
use predictive_hpa.Latency.Cycles.Complete.{IsReadFrom, controller_cycles-IsReadFrom}
use predictive_hpa.LiveBaseline.Refusal.{Refusal, caught, caught-eq-ok}
use predictive_hpa.LiveBaseline.Plan.{validate_plan}
use predictive_hpa.LiveBaseline.Plan.Accepted.{IsPlan, validate_plan-IsPlan}
use predictive_hpa.LiveBaseline.Marker.{Actual, number_of, time_at, schedule}
use predictive_hpa.LiveBaseline.Marker.Agreed.{IsAgreed, schedule-IsAgreed}
use predictive_hpa.LiveBaseline.Evidence.{validate_evidence}
use predictive_hpa.LiveBaseline.Evidence.Consistent.{IsConsistent, validate_evidence-IsConsistent}
use predictive_hpa.LiveBaseline.Business.{Business, business_evidence}
use predictive_hpa.LiveBaseline.Business.Counted.{IsComplete, business_evidence-IsComplete}
use predictive_hpa.LiveBaseline.Samples.{Reading, Field, requested, ready, metrics, samples}
use predictive_hpa.LiveBaseline.Samples.Ordered.{AreReadings, samples-AreReadings}
use predictive_hpa.LiveBaseline.Occupancy.{Coverage, Readiness, readiness_evidence}
use predictive_hpa.LiveBaseline.Occupancy.Known.{IsSumOf, integrate-IsSumOf}
use predictive_hpa.LiveBaseline.Observations.{
  Accepted, Write, check_receipt, check_span, read_cycles, increases,
}
use predictive_hpa.LiveBaseline.Observations.Backed.{IsBackedFrom, read_cycles-backed}
use predictive_hpa.LiveBaseline.Analysis.{
  Python, Files, Report, check_binary, occupancy, assemble, analyze, report_of,
}
use mathlib.Core.Path.{subst}

module _ (p : Python) (plan : Fields) (files : Files) where
  -- The seconds of the window for which one of the deployment's counts was held: they are the sums
  -- over the readings of the observed states.
  pub record IsHeld (field : Field) (actual : Actual) (gap : Float) (c : Coverage) : Type 0 where
    pub readings : List Reading
    pub read : AreReadings p.clock "deployment" field files.rows readings
    pub sums :
        IsSumOf p.arithmetic actual.load_onset actual.observation_end gap actual.offered_load_end
          readings c

  -- What the schedule, the requests, and the two counts of a report rest on.
  pub record RestsOn (actual : Actual) (k6 : Business) (gap : Float) (asked running : Coverage)
      : Type 0 where
    pub start : Float
    pub cycles : List Cycle
    pub agreed : IsAgreed p.arithmetic p.clock files.markers plan actual
    pub logged : IsReadFrom p.clock p.parse_json false files.log cycles
    pub consistent : IsConsistent p.clock plan files.gate files.rows cycles actual start
    pub complete : IsComplete p.clock p.arithmetic files.business actual k6
    pub held : IsHeld requested actual gap asked
    pub held_ready : IsHeld ready actual gap running
    pub backed :
        All
          (IsBackedFrom p.arithmetic actual.load_onset p.clock actual.observation_end start)
          cycles

  abbrev pub IsAnalysis : Report → Type 0
  IsAnalysis r = RestsOn r.schedule r.k6 r.max_gap r.requested r.ready

  -- The parts of the report that the computations before it determine.
  abbrev Parts : Actual → Business → Float → Coverage → Coverage → Report → Type 0
  Parts actual k6 gap asked running r =
      (r.schedule ≡ actual)
      × (r.k6 ≡ k6)
      × (r.max_gap ≡ gap)
      × (r.requested ≡ asked)
      × (r.ready ≡ running)

  assemble-Parts :
      (actual : Actual) (k6 : Business) (gap : Float) (asked running conditions : List Reading)
      (readiness : Readiness) (found : List Accepted × List Write) (r : Report)
      → assemble p plan files actual k6 gap asked running conditions readiness found ≡ ok r
      → Parts actual k6 gap (occupancy p actual gap asked) (occupancy p actual gap running) r
  unfolding assemble
  assemble-Parts actual k6 gap asked running conditions readiness found r h = do
    (_, _, h1) ← returned (caught (increases found.1)) _ h
    (_, _, h2) ← returned (caught (item "protocol_version" (obj plan))) _ h1
    (_, _, h3) ← returned (caught (item "experiment_id" files.metadata)) _ h2
    (_, _, h4) ← returned (caught (item "decision_mode" (obj plan))) _ h3
    (_, _, h5) ← returned (caught (item "pattern" (obj plan))) _ h4
    (_, _, h6) ← returned (caught (item "startup_mode" (obj plan))) _ h5
    (_, _, h7) ← returned (caught (item "controller_started_at" (obj plan))) _ h6
    (_, _, h8) ← returned (caught (time_at p.clock "controller_started_at" (obj plan))) _ h7
    subst (Parts actual k6 gap (occupancy p actual gap asked) (occupancy p actual gap running))
        (ok-injective {E = Refusal} _ _ h8) (refl, refl, refl, refl, refl)

  sums_of :
      (field : Field) (actual : Actual) (gap : Float) (rs : List Reading)
      → samples p.clock files.rows "deployment" field ≡ ok rs
      → IsHeld field actual gap (occupancy p actual gap rs)
  sums_of field actual gap rs read = record {
    readings = rs;
    read = samples-AreReadings p.clock "deployment" field files.rows rs read;
    sums =
        integrate-IsSumOf p.arithmetic actual.load_onset actual.observation_end gap
          actual.offered_load_end rs;
  }

  -- When analyze returns a report, the markers agree with the plan, the cycles are those of the log, the
  -- evidence is consistent from the start on, the requests are complete, the coverage of either count
  -- is the sum over the readings of the observed states, and every decision and every write from the
  -- start on is backed.
  analyze-IsAnalysis : (r : Report) → analyze p plan files ≡ ok r → IsAnalysis r
  unfolding analyze
  analyze-IsAnalysis r h = do
    let a = p.arithmetic
    (_, _, h1) ← returned (check_receipt files.runner) _ h
    (actual, s, h2) ← returned (schedule a p.clock files.markers plan) _ h1
    (_, h3) ← not_raised (any_of (λ row. not (is_obj row)) files.rows) _ _ h2
    (cycles, l, h4) ←
        returned (caught (controller_cycles p.clock p.parse_json false files.log)) _ h3
    (start, v, h5) ←
        returned
          (validate_evidence p.clock a p.to_float files.metadata plan files.gate files.status
            files.rows cycles actual)
          _ h4
    (_, _, h6) ← returned (check_binary plan files.binary) _ h5
    (k6, b, h7) ←
        returned (business_evidence p.clock a p.thousandth p.divide p.joined files.business actual)
          _ h6
    (interval, _, h8) ← returned (caught (number_of "interval_seconds" (obj plan))) _ h7
    let gap = a.times (of_ℤ (pos 2)) interval
    (asked, q, h9) ← returned (samples p.clock files.rows "deployment" requested) _ h8
    (running, w, h10) ← returned (samples p.clock files.rows "deployment" ready) _ h9
    (_, _, h11) ←
        returned
          (check_span actual.load_onset actual.observation_end (get_elem? asked 0)
            (get_last? asked))
          _ h10
    (conditions, _, h12) ← returned (samples p.clock files.rows "phpa" metrics) _ h11
    (readiness, _, h13) ←
        returned
          (caught (readiness_evidence a actual.load_onset actual.observation_end gap conditions)) _
          h12
    (found, c, h14) ←
        returned (read_cycles a actual.load_onset p.clock actual.observation_end start cycles) _ h13
    let (e1, e2, e3, e4, e5) =
        assemble-Parts actual k6 gap asked running conditions readiness found r h14
    rw (e1, e2, e3, e4, e5)
        (record {
          start = start;
          cycles = cycles;
          agreed = schedule-IsAgreed a p.clock files.markers plan actual s;
          logged =
              controller_cycles-IsReadFrom p.clock p.parse_json false files.log cycles
                (caught-eq-ok (controller_cycles p.clock p.parse_json false files.log) cycles l);
          consistent =
              validate_evidence-IsConsistent p.clock a p.to_float files.metadata plan files.gate
                files.status files.rows cycles actual start v;
          complete =
              business_evidence-IsComplete p.clock a p.thousandth p.divide p.joined files.business
                actual k6 b;
          held = sums_of requested actual gap asked q;
          held_ready = sums_of ready actual gap running w;
          backed =
              read_cycles-backed a actual.load_onset p.clock actual.observation_end start cycles
                found c;
        })

  -- When main makes a report, its plan is accepted, its markers agree with the plan, its cycles are those
  -- of the log, the evidence is consistent from the start on, the requests are complete, the coverage
  -- of either count is the sum over the readings of the observed states, and every decision and every
  -- write from the start on is backed.
  pub report_of-IsAnalysis :
      (r : Report) → report_of p plan files ≡ ok r → IsPlan (obj plan) × IsAnalysis r
  unfolding report_of
  report_of-IsAnalysis r h = do
    (_, accepted, rest) ← returned (validate_plan p.clock (obj plan)) _ h
    (validate_plan-IsPlan p.clock (obj plan) accepted, analyze-IsAnalysis r rest)

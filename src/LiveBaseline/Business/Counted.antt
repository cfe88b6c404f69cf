-- ===== src/LiveBaseline/Business/Counted.antt =====
-- hack/analyze/live_baseline.py, business_evidence: the requests, durations, failures and attempts of
-- accepted evidence are equally many, and none is outside the load.
use predictive_hpa.Prelude.{
  ℕ, ◌+◌, String, false, not, ◌&&◌, ◌||◌, ◌≡◌, ◌⊎◌, inl, inr, refl, sym, ap, ◌∙◌, Option, List, [],
  ◌∷◌, Result, ok, on_ok, on_pass, passed, ok-injective, if◌then◌else◌, sum_by, All, Bool-cases,
  or_false, ◌==◌, arith,
}
use predictive_hpa.Prelude.Inversion.{◌>>=◌, returned, not_raised}
use predictive_hpa.Prelude.Int.{pos}
use predictive_hpa.Float
use predictive_hpa.Float.{Float, of_ℤ}
use predictive_hpa.Json.{Json, get, get-at, item, item-at, at, is_str}
use predictive_hpa.Latency.Values.{Clock, Arithmetic}
use predictive_hpa.LiveBaseline.Refusal.{Refusal, caught, caught-eq-ok, is_one_of, plain_number}
use predictive_hpa.LiveBaseline.Marker.{Actual, time_at}
use predictive_hpa.LiveBaseline.Completion.{
  Completion, centi, completion_evidence, summary_evidence,
}
use predictive_hpa.LiveBaseline.Business.{
  Counts, counted, whole_part, measured, check_time, check_point, read_point, read_points,
  points_of, no_counts, unequal, check_warnings, Directory, Business, business_evidence,
}
use predictive_hpa.LiveBaseline.Business.Tally.{
  metric, amount, requests_of, named, Adds, add_point-Adds, skipped-Adds, measured-eq,
}
use mathlib.Core.Path.{subst}

module _ (clock : Clock) (a : Arithmetic) where
  -- A point is of a metric that is not read, or falls between the onset and the end of the process,
  -- and an attempt no later than the load.
  abbrev pub IsWithin : Actual → Completion → Json → Type 0
  IsWithin actual done point =
      ((is_one_of counted (metric point) || is_str "dropped_iterations" (metric point)) ≡ false)
      ⊎ ((t : Float) × (time_at clock "time" (at ("data" ∷ []) point) ≡ ok t)
          × (Float.lt t (a.minus actual.load_onset centi) ≡ false)
          × (Float.lt (of_ℤ (pos (done.process_end + 1))) t ≡ false)
          × ((is_str "baseline_request_attempt" (metric point)
                && Float.lt (a.plus actual.offered_load_end centi) t)
              ≡ false))

  module _ (thousandth : Float → Float) (actual : Actual) (done : Completion) where
    -- What reading a point does: it is counted once, and lies within the load.
    record Reads (point : Json) (c d : Counts) : Type 0 where
      counts :
          Adds
            (metric point)
            (amount (plain_number (at ("value" ∷ []) (at ("data" ∷ []) point))))
            c
            d
      within : IsWithin actual done point

    check_time-within :
        (name : Json) (t : Float)
        → check_time clock a thousandth actual done name t ≡ ok tt
        → (Float.lt t (a.minus actual.load_onset centi) ≡ false)
          × (Float.lt (of_ℤ (pos (done.process_end + 1))) t ≡ false)
          × ((is_str "baseline_request_attempt" name
                && Float.lt (a.plus actual.offered_load_end centi) t)
              ≡ false)
    unfolding check_time
    check_time-within name t h =
        on_pass (Float.lt t (a.minus actual.load_onset centi)) _ _ h λ after h1.
          on_pass (Float.lt (of_ℤ (pos (done.process_end + 1))) t) _ _ h1
            λ before h2. (after, before, passed _ _ h2)

    read_point-Reads :
        (point : Json) (c d : Counts)
        → read_point clock a thousandth actual done (metric point) (at ("data" ∷ []) point) c ≡ ok d
        → Reads point c d
    unfolding read_point
    read_point-Reads point c d h =
        let found = at ("data" ∷ []) point in
        let name = metric point in
        on_ok (caught (item "value" found)) _ h λ value v h1.
          on_ok (measured (plain_number value)) _ h1 λ x number h2.
            on_ok (caught (time_at clock "time" found)) _ h2 λ t time h3.
              on_ok (check_time clock a thousandth actual done name t) _ h3 λ _ timely h4.
                on_ok (check_point clock a thousandth actual name found value x) _ h4 λ _ _ h5.
                  let there =
                    item-at "value" found value (caught-eq-ok (item "value" found) value v) in
                  let known = ap plain_number there ∙ measured-eq (plain_number value) x number in
                  record {
                    counts =
                        subst (λ o. Adds name (amount o) c d) (sym known)
                          (subst (Adds name (whole_part x) c) (ok-injective {E = Refusal} _ _ h5)
                            (add_point-Adds name x c));
                    within =
                        let (after, before, timed) = check_time-within name t timely in
                        inr (
                          t,
                          caught-eq-ok (time_at clock "time" found) t time,
                          after,
                          before,
                          timed,
                        );
                  }

    -- The loop's branch on the metric.
    abbrev step : Json → Json → Counts → Result Refusal Counts
    step name found c =
        if is_one_of counted name || is_str "dropped_iterations" name
        then read_point clock a thousandth actual done name found c
        else ok c

    step-Reads :
        (point : Json) (c d : Counts)
        → step (metric point) (at ("data" ∷ []) point) c ≡ ok d
        → Reads point c d
    step-Reads point c d h =
        let name = metric point in
        elim (Bool-cases (is_one_of counted name || is_str "dropped_iterations" name)) [
          | inl e ↦ read_point-Reads point c d (rw e at h)
          | inr e ↦
              let skipped = (or_false (is_one_of counted name) _ e).0 in
              subst (Reads point c) (ok-injective {E = Refusal} c d (rw e at h))
                (record { counts = skipped-Adds name _ c skipped; within = inl e })
        ]

    -- The counts of all points, from those in front of them.
    pub record AreRead (points : List Json) (c d : Counts) : Type 0 where
      pub requests : d.requests ≡ c.requests + sum_by requests_of points
      pub durations : d.durations ≡ c.durations + named "http_req_duration" points
      pub failed : d.failed ≡ c.failed + named "http_req_failed" points
      pub attempts : d.attempts ≡ c.attempts + named "baseline_request_attempt" points
      pub within : All (IsWithin actual done) points

    read_points-AreRead :
        (points : List Json) (c d : Counts)
        → read_points clock a thousandth actual done points c ≡ ok d
        → AreRead points c d
    unfolding read_points
    read_points-AreRead [] c d h =
        let same = ok-injective {E = Refusal} c d h in
        subst (AreRead [] c) same (record {
          requests = omega arith;
          durations = omega arith;
          failed = omega arith;
          attempts = omega arith;
          within = tt;
        })
    read_points-AreRead (point ∷ points) c d h =
        on_ok (caught (get "metric" point)) _ h λ name n h1.
          on_ok (caught (item "data" point)) _ h1 λ found f h2.
            on_ok (step name found c) _ h2 λ next here rest.
              let all = read_points-AreRead points next d rest in
              let same_name =
                sym (get-at "metric" point name (caught-eq-ok (get "metric" point) name n)) in
              let same_data =
                sym (item-at "data" point found (caught-eq-ok (item "data" point) found f)) in
              let one = step-Reads point c next (
                subst (λ v. step v (at ("data" ∷ []) point) c ≡ ok next) same_name
                  (subst (λ v. step name v c ≡ ok next) same_data here)) in
              record {
                requests = omega (arith, all.requests, one.counts.0);
                durations = omega (arith, all.durations, one.counts.1);
                failed = omega (arith, all.failed, one.counts.2);
                attempts = omega (arith, all.attempts, one.counts.3);
                within = (one.within, all.within);
              }

-- The evidence of accepted requests: `points` are the points of the file, `counts` their counts.
pub record IsComplete (clock : Clock) (a : Arithmetic) (d : Directory) (actual : Actual)
    (b : Business) : Type 0 where
  pub points : List Json
  pub read : points_of d.rows ≡ ok points
  pub some_request : (sum_by requests_of points == 0) ≡ false
  pub durations : named "http_req_duration" points ≡ sum_by requests_of points
  pub failed : named "http_req_failed" points ≡ sum_by requests_of points
  pub attempts : named "baseline_request_attempt" points ≡ sum_by requests_of points
  pub within : All (IsWithin clock a actual b.completion) points
  pub completed : completion_evidence a d.receipts actual ≡ ok b.completion
  pub loaded : b.loaded ≡ d.loaded.0
  pub no_warnings : d.loaded.1 ≡ []

no_warning :
    (joined : List String → String) (ws : List String) → check_warnings joined ws ≡ ok tt → ws ≡ []
no_warning joined [] h = refl
no_warning joined (w ∷ ws) h = cc

equal_count : (m n : ℕ) → not (m == n) ≡ false → m ≡ n
equal_count m n h = ground arith

module _ (clock : Clock) (a : Arithmetic) (thousandth : Float → Float)
    (divide : Float → Float → Option Float) (joined : List String → String) where
  -- When business_evidence returns, there is a request, the durations, failure marks and attempts are as
  -- many as the requests, and every point that is read lies between the onset and the end of the
  -- process that the receipts tell of, an attempt no later than the load.
  pub business_evidence-IsComplete :
      (d : Directory) (actual : Actual) (b : Business)
      → business_evidence clock a thousandth divide joined d actual ≡ ok b
      → IsComplete clock a d actual b
  unfolding business_evidence
  business_evidence-IsComplete d actual b h = do
    (done, completed, h1) ← returned (completion_evidence a d.receipts actual) _ h
    (points, p, h2) ← returned (caught (points_of d.rows)) _ h1
    (c, read, h3) ← returned (read_points clock a thousandth actual done points no_counts) _ h2
    (equal, h4) ← not_raised (c.requests == 0 || unequal c) _ _ h3
    (_, quiet, h5) ← returned (check_warnings joined d.loaded.1) _ h4
    (s, _, h6) ← returned (summary_evidence a divide d.summary d.loaded.0 c.attempts) _ h5
    let counts = read_points-AreRead clock a thousandth actual done points no_counts c read in
        let total : c.requests ≡ sum_by requests_of points = omega (arith, counts.requests) in
        let (nonzero, same) = or_false (c.requests == 0) (unequal c) equal in
        let (first, third) = or_false _ (not (c.attempts == c.requests)) same in
        let (one, two) =
          or_false (not (c.durations == c.requests)) (not (c.failed == c.requests)) first in
        subst (IsComplete clock a d actual) (ok-injective {E = Refusal} _ _ h6) (record {
          points = points;
          read = caught-eq-ok (points_of d.rows) points p;
          some_request = subst (λ n. (n == 0) ≡ false) total nonzero;
          durations =
              omega
                (arith, equal_count c.durations c.requests one, counts.requests, counts.durations);
          failed =
              omega (arith, equal_count c.failed c.requests two, counts.requests, counts.failed);
          attempts =
              omega
                (arith, equal_count c.attempts c.requests third, counts.requests, counts.attempts);
          within = counts.within;
          completed = completed;
          loaded = refl;
          no_warnings = no_warning joined d.loaded.1 quiet;
        })

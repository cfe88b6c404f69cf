-- ===== src/LiveBaseline/Business/Tests.antt =====
-- One request, with its duration, its failure mark and its attempt.
use predictive_hpa.Prelude.{String, ◌≡◌, refl, false, some, none, List, [], ◌∷◌, ok, ◌-◌, ◌*◌}
use predictive_hpa.Prelude.Int.{ℤ, pos, ◌+ℤ◌}
use predictive_hpa.Float.{Float, finite, of_ℤ, nan}
use predictive_hpa.Json.{Json, int, str, obj, Fields, fields, eq, get, get_or, item}
use predictive_hpa.Latency.Values.{Clock, Arithmetic, epoch}
use predictive_hpa.LiveBaseline.Checks.{refuse_if}
use predictive_hpa.LiveBaseline.Marker.{Actual}
use predictive_hpa.LiveBaseline.Completion.{
  Receipts, values, number, whole, count_of, summarize, completion_evidence, summary_evidence,
}
use predictive_hpa.LiveBaseline.Business.{
  Directory, Business, check_time, check_tags, check_point, read_point, read_points, points_of,
  business_evidence,
}
use predictive_hpa.LiveBaseline.Business.Counted.{IsComplete, business_evidence-IsComplete}

abbrev clock : Clock
clock = record { timestamp = λ s. none }

-- Whole numbers are enough here.
abbrev sum_of : Float → Float → Float
sum_of (finite n k) (finite m l) = finite (n +ℤ m) 0
sum_of _ _ = nan

abbrev difference : Float → Float → Float
difference (finite (pos n) k) (finite (pos m) l) = finite (pos (n - m)) 0
difference _ _ = nan

abbrev product : Float → Float → Float
product (finite (pos n) k) (finite (pos m) l) = finite (pos (n * m)) 0
product _ _ = nan

abbrev pub arithmetic : Arithmetic
arithmetic = record { minus = difference; plus = sum_of; times = product; absolute = λ x. x }

abbrev point : String → ℤ → Json
point name value = obj (
    fields (
      ("type", str "Point")
      ∷ ("metric", str name)
      ∷ (
        "data",
        obj (
            fields (
              ("value", int value)
              ∷ ("time", int (pos 160))
              ∷ ("tags", obj (fields (("status", str "200") ∷ [])))
              ∷ [])),
      )
      ∷ []))

abbrev rows : List Json
rows =
    point "http_reqs" (pos 1)
    ∷ point "http_req_duration" (pos 5)
    ∷ point "http_req_failed" (pos 0)
    ∷ point "vus" (pos 7)
    ∷ point "baseline_request_attempt" (pos 121)
    ∷ []

abbrev count : ℤ → Json
count n = obj (fields (("count", int n) ∷ []))

abbrev loaded : Fields
loaded = fields (
    ("total_requests", int (pos 1))
    ∷ ("failed_count", int (pos 0))
    ∷ ("dropped_iterations", int (pos 0))
    ∷ ("duration_p95_ms", int (pos 5))
    ∷ [])

abbrev summary : Fields
summary = fields (
    (
      "metrics",
      obj (
          fields (
            ("http_reqs", count (pos 1))
            ∷ (
              "http_req_failed",
              obj (
                  fields (
                    ("passes", int (pos 0)) ∷ ("fails", int (pos 1)) ∷ ("rate", int (pos 0)) ∷ [])),
            )
            ∷ ("http_req_duration", obj (fields (("p(95)", int (pos 5)) ∷ [])))
            ∷ [])),
    )
    ∷ [])

abbrev receipts : Receipts
receipts = record {
  runner =
      fields (
        ("status", str "success")
        ∷ ("k6_exit_code", int (pos 0))
        ∷ ("failure_reason", str "")
        ∷ []);
  exit_code = str "0";
  start_time = "120";
  end_time = "340";
}

abbrev pub directory : Directory
directory = record { rows = rows; loaded = (loaded, []); summary = summary; receipts = receipts }

abbrev pub actual : Actual
actual = record {
  scenario_start = of_ℤ (pos 121);
  load_onset = of_ℤ (pos 151);
  offered_load_end = of_ℤ (pos 332);
  observation_end = of_ℤ (pos 692);
}

abbrev business : Business
business = record {
  loaded = loaded;
  summary = record {
    requests = of_ℤ (pos 1);
    failures = of_ℤ (pos 0);
    dropped = of_ℤ (pos 0);
    p95 = of_ℤ (pos 5);
    attempt_count_available = false;
  };
  completion = record { process_start = 120; process_end = 340 };
}

complete :
    business_evidence clock arithmetic (λ x. x) (λ x y. some x) (λ ws. "") directory actual
    ≡ ok business
unfolding business_evidence completion_evidence points_of read_points read_point check_time
    check_point check_tags summary_evidence summarize count_of values number whole refuse_if get
    get_or item eq epoch ◌+ℤ◌
complete = refl

business_evidence-IsComplete_example : IsComplete clock arithmetic directory actual business
business_evidence-IsComplete_example =
    business_evidence-IsComplete clock arithmetic (λ x. x) (λ x y. some x) (λ ws. "") directory
      actual business complete

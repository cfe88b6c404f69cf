-- ===== src/Latency/Occupancy/Tests.antt =====
-- A series of three values, every fifteen seconds or at the window's bounds, and one that ends early.
use predictive_hpa.Prelude.{
  ℕ, zero, suc, ◌+◌, ◌-◌, ◌*◌, String, ltb, if◌then◌else◌, ◌≡◌, refl, some, none, [], ◌∷◌, Result,
  ok, err,
}
use predictive_hpa.Prelude.Int.{pos, negsuc, ◌+ℤ◌}
use predictive_hpa.Float.{Float, finite, of_ℤ, nan}
use predictive_hpa.Json.{
  File, parsed, Json, int, arr, obj, Items, nil, cons, fields, get, item, Error,
}
use predictive_hpa.Latency.Values.{Clock, Arithmetic, epoch}
use predictive_hpa.Latency.Occupancy.{
  Totals, Report, valid, invalid, not_covered, value_of, values_of, read_values, any_pair,
  add_values, relevant_of, window_totals, totals_in, scenario_occupancy,
}
use predictive_hpa.Latency.Occupancy.Covered.{IsWindow, scenario_occupancy-IsWindow}

abbrev clock : Clock
clock = record { timestamp = λ s. none }

-- Whole numbers are enough here.
abbrev sum_of : Float → Float → Float
sum_of (finite n k) (finite m l) = finite (n +ℤ m) 0
sum_of _ _ = nan

abbrev difference : Float → Float → Float
difference (finite (pos n) k) (finite (pos m) l) =
    if ltb n m then finite (negsuc (m - n - 1)) 0 else finite (pos (n - m)) 0
difference _ _ = nan

abbrev product : Float → Float → Float
product (finite (pos n) k) (finite (pos m) l) = finite (pos (n * m)) 0
product _ _ = nan

abbrev arithmetic : Arithmetic
arithmetic = record { minus = difference; plus = sum_of; times = product; absolute = λ x. x }

abbrev to_float : Json → Result Error Float
to_float (int n) = ok (of_ℤ n)
to_float _ = err Error.value_error

abbrev pair : ℕ → ℕ → Json
pair time count = arr (cons (int (pos time)) (cons (int (pos count)) nil))

-- One replica until 1100, then three, every fifteen seconds from 1000 on.
abbrev grid : ℕ → ℕ → Items
grid zero time = nil
grid (suc n) time = cons (pair time (if ltb time 1100 then 1 else 3)) (grid n (time + 15))

abbrev one_entry : String → Json → Json
one_entry k v = obj (fields ((k, v) ∷ []))

abbrev series : ℕ → File
series n = parsed (
    one_entry "replicas" (
      one_entry "data"
        (one_entry "result" (arr (cons (one_entry "values" (arr (grid n 1000))) nil)))))

abbrev metadata : Json
metadata = one_entry "load_start_time_unix" (int (pos 1008))

abbrev totals : Totals
totals = record {
  total = of_ℤ (pos 1433);
  post = of_ℤ (pos 1080);
  first_up = some (of_ℤ (pos 95));
  previous = of_ℤ (pos 3);
}

abbrev report : Report
report = record {
  start_time = of_ℤ (pos 1010);
  end_time = of_ℤ (pos 1551);
  legacy_offset = some (of_ℤ (pos 2));
  outcome = valid totals;
}

covered :
    scenario_occupancy clock to_float arithmetic (series 38) (of_ℤ (pos 1010)) metadata ≡ ok report
unfolding scenario_occupancy totals_in read_values values_of value_of window_totals relevant_of
    any_pair add_values get item epoch ◌+ℤ◌
covered = refl

-- A series that ends before the window does.
short :
    scenario_occupancy clock to_float arithmetic (series 20) (of_ℤ (pos 1010)) metadata
    ≡ ok (record report { outcome = invalid not_covered })
unfolding scenario_occupancy totals_in read_values values_of value_of window_totals relevant_of
    any_pair add_values get item epoch ◌+ℤ◌
short = refl

scenario_occupancy-IsWindow_example :
    IsWindow clock to_float arithmetic (series 38) (of_ℤ (pos 1010)) report totals
scenario_occupancy-IsWindow_example =
    scenario_occupancy-IsWindow clock to_float arithmetic (series 38) (of_ℤ (pos 1010)) metadata
      report totals covered refl

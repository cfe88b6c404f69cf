-- ===== src/Latency/Occupancy.antt =====
-- hack/analyze/latency.py, scenario_occupancy: the recorded replicas, integrated over the window of the
-- scenario.
use predictive_hpa.Prelude.{
  ℕ, zero, suc, ◌+◌, ◌-◌, ◌*◌, ◌^◌, String, Bool, true, false, not, ◌&&◌, ◌||◌, Option, some, none,
  List, [], ◌∷◌, Result, ok, err, ◌>>=◌, ◌>>◌, raise_if, if◌then◌else◌, any_of, length, leb, ◌==◌,
}
use predictive_hpa.Prelude.Int.{pos}
use predictive_hpa.Float
use predictive_hpa.Float.{Float, finite, of_ℤ}
use predictive_hpa.Json.{
  File, missing, unreadable, parsed, Json, null, number?, get, item, first_of, iterate, Error,
}
use predictive_hpa.Latency.Values.{Clock, Arithmetic, epoch, le}
mod Slices
mod Sums
mod Covered
mod Tests

-- A replica count at its time.
abbrev pub Value : Type 0
Value = Float × Float

-- What the try block raises: the ValueErrors of its checks, the errors of the file, and the rest.
pub data Problem : Type 0 where
  no_file : Problem
  no_document : String → Problem
  series_count invalid_count unordered not_covered gap : Problem
  other : Error → Problem

abbrev caught {ℓ} : {A : Type ℓ} → Result Error A → Result Problem A
caught (ok a) = ok a
caught (err e) = err (other e)

-- What the loop computes.
pub record Totals : Type 0 where
  pub total : Float
  pub post : Float
  pub first_up : Option Float
  pub previous : Float

-- The entries of the report that the try block determines.
pub data Outcome : Type 0 where
  valid : Totals → Outcome
  invalid : Problem → Outcome

pub record Report : Type 0 where
  pub start_time : Float
  pub end_time : Float
  pub legacy_offset : Option Float
  pub outcome : Outcome

-- `for a, b in …`
abbrev pub unpack : List Json → Result Error (Json × Json)
unpack (a ∷ b ∷ []) = ok (a, b)
unpack _ = err Error.value_error

-- The test of a count.
abbrev pub not_count : Float → Bool
not_count (finite (pos n) k) = not (k == 0)
not_count _ = true

-- `any(right[0] <= left[0] for left, right in zip(values, values[1:]))`
pub any_pair : (Value → Value → Bool) → List Value → Bool
any_pair test [] = false
any_pair test (v ∷ []) = false
any_pair test (v ∷ w ∷ vs) = test v w || any_pair test (w ∷ vs)

-- `bisect_right(stamps, x)` of stamps that rise: how many of them are at most x.
abbrev pub bisect_right : Float → List Value → ℕ
bisect_right x [] = 0
bisect_right x (v ∷ vs) = let rest = bisect_right x vs in if le v.0 x then suc rest else 0

-- `values[i:j]`
abbrev pub slice : ℕ → ℕ → List Value → List Value
slice i zero vs = []
slice i (suc j) [] = []
slice zero (suc j) (v ∷ vs) = v ∷ slice zero j vs
slice (suc i) (suc j) (v ∷ vs) = slice i j vs

-- `max` and `min` of two floats
abbrev pub max_of : Float → Float → Float
max_of x y = if Float.lt x y then y else x

abbrev pub min_of : Float → Float → Float
min_of x y = if Float.lt y x then y else x

-- The literal 15.001
abbrev pub longest_gap : Float
longest_gap = finite (pos 15) (562949953421 * 2 ^ 1025)

module _ (clock : Clock) (to_float : Json → Result Error Float) where
  pub value_of : Json → Result Error Value
  value_of v = do
    parts ← iterate v
    both ← unpack parts
    time ← epoch clock both.0
    count ← to_float both.1
    ok (time, count)

  pub values_of : List Json → Result Error (List Value)
  values_of [] = ok []
  values_of (v ∷ vs) = do value ← value_of v; rest ← values_of vs; ok (value ∷ rest)

  -- The values of the only series.
  pub read_values : Json → Result Problem (List Value)
  read_values document = do
    replicas ← caught (item "replicas" document)
    answer ← caught (item "data" replicas)
    series ← caught (item "result" answer)
    listed ← caught (iterate series)
    raise_if (not (length listed == 1)) series_count
    one ← caught (first_of series)
    values ← caught (item "values" one)
    entries ← caught (iterate values)
    caught (values_of entries)

module _ (a : Arithmetic) (onset end offered_end : Float) where
  -- `max(0, min(finish, end) - max(start, after))`
  abbrev pub seconds_in : Float → Float → Float → Float
  seconds_in after start finish =
      max_of (of_ℤ (pos 0)) (a.minus (min_of finish end) (max_of start after))

  abbrev pub rise : Float → Float → Totals → Option Float
  rise start value t =
      if Float.lt t.previous value && le onset start
      then (elim t.first_up [ none ↦ some (a.minus start onset) | some up ↦ some up ])
      else t.first_up

  -- A value that holds from its time to the next.
  abbrev pub add_value : Value → Float → Totals → Totals
  add_value v finish t = record {
    total = a.plus t.total (a.times v.1 (seconds_in onset v.0 finish));
    post = a.plus t.post (a.times v.1 (seconds_in offered_end v.0 finish));
    first_up = rise v.0 v.1 t;
    previous = v.1;
  }

  -- The loop over the neighbours.
  pub add_values : List Value → Totals → Totals
  add_values [] t = t
  add_values (v ∷ []) t = t
  add_values (v ∷ w ∷ vs) t = add_values (w ∷ vs) (add_value v w.0 t)

  abbrev pub totals_of : List Value → Result Problem Totals
  totals_of [] = err (other Error.index_error)
  totals_of (v ∷ vs) = ok (
      add_values (v ∷ vs)
        (record { total = of_ℤ (pos 0); post = of_ℤ (pos 0); first_up = none; previous = v.1 }))

  -- The values from the last one at the onset to the first one after the end, which must not be far
  -- from each other.
  pub relevant_of : List Value → Result Problem (List Value)
  relevant_of values = do
    raise_if (any_of (λ (v : Value). not_count v.1) values) invalid_count
    raise_if (any_pair (λ v w. le w.0 v.0) values) unordered
    raise_if (bisect_right onset values == 0 || leb (length values) (bisect_right end values))
        not_covered
    let relevant = slice (bisect_right onset values - 1) (suc (bisect_right end values)) values
    raise_if (any_pair (λ v w. Float.lt longest_gap (a.minus w.0 v.0)) relevant) gap
    ok relevant

  unfoldable pub window_totals : List Value → Result Problem Totals
  unfolding relevant_of
  window_totals values = do relevant ← relevant_of values; totals_of relevant

-- The except clause: OSError, ValueError, KeyError and TypeError.
abbrev pub outcome_of : Result Problem Totals → Result Error Outcome
outcome_of (ok t) = ok (valid t)
outcome_of (err (other Error.attribute_error)) = err Error.attribute_error
outcome_of (err (other Error.index_error)) = err Error.index_error
outcome_of (err (other Error.overflow_error)) = err Error.overflow_error
outcome_of (err e) = ok (invalid e)

abbrev pub content_of : File → Result Problem Json
content_of missing = err no_file
content_of (unreadable e) = err (no_document e)
content_of (parsed v) = ok v

-- `onset - legacy_onset if legacy_onset is not None else None`
abbrev pub offset_from : Option Float → Result Error Float
offset_from none = err Error.type_error
offset_from (some x) = ok x

abbrev pub legacy_offset : Arithmetic → Float → Json → Result Error (Option Float)
legacy_offset a onset null = ok none
legacy_offset a onset v = do x ← offset_from (number? v); ok (some (a.minus onset x))

module _ (clock : Clock) (to_float : Json → Result Error Float) (a : Arithmetic) where
  -- The try block.
  pub totals_in : File → Float → Float → Float → Result Problem Totals
  totals_in prom onset stop offered = do
    document ← content_of prom
    values ← read_values clock to_float document
    window_totals a onset stop offered values

  unfoldable pub scenario_occupancy : File → Float → Json → Result Error Report
  scenario_occupancy prom onset metadata = do
    let stop = a.plus onset (of_ℤ (pos 541))
    let offered = a.plus onset (of_ℤ (pos 181))
    legacy ← get "load_start_time_unix" metadata
    offset ← legacy_offset a onset legacy
    outcome ← outcome_of (totals_in prom onset stop offered)
    ok (record { start_time = onset; end_time = stop; legacy_offset = offset; outcome = outcome })

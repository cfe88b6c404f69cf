-- ===== src/Extract/Decisions.antt =====
-- `compute_phpa_metrics` and `compute_first_upscale_decision` in hack/analyze/extract.py: metrics of
-- the controller's log. Times are microseconds, so that a rounding to six decimals is exact.
pub mod Unique
pub mod Counts
pub mod First
mod Tests
use text.Mathlib.Text.{◌==◌ as str_eq}
use predictive_hpa.Prelude.{
  ℕ, ◌+◌, ◌-◌, ◌*◌, Bool, true, false, ◌||◌, ◌&&◌, not, Option, none, some, List, [], ◌∷◌, ◌++◌,
  map, min, ltb, leb, ◌==◌, if◌then◌else◌, keep_if, any_of, count_if, length, Result, ok, err,
  ◌>>=◌, ◌>>◌, raise_if, String,
}
use predictive_hpa.Prelude.Int.{ℤ, pos, ltb_ℤ}
use predictive_hpa.Float
use predictive_hpa.Float.{Float, of_ℤ}

-- A JSON value, as far as the code tells them apart.
pub data Value : Type 0 where
  missing : Value
  boolean : Bool → Value
  integer : ℤ → Value
  real : Float → Value
  other_value : Value

-- An entry of the log; `is_applied` says that its message is "Scaled Deployment". `scaled` and `stabilized` are the tests `is True`.
pub record Decision : Type 0 where
  pub is_applied : Bool
  pub reconcile_id : Option String
  pub timestamp : Option ℕ
  pub scaled : Bool
  pub stabilized : Bool
  pub skip_reason : String
  pub previous_desired : Value
  pub current_replicas : Value
  pub final_desired : Value

-- The keys of `by_id`: an id, or the text _noid_ with a number, which no id is: ids are UUIDs.
pub data Key : Type 0 where
  id : String → Key
  no_id : ℕ → Key

abbrev pub eq_key : Key → Key → Bool
eq_key (id a) (id b) = str_eq a b
eq_key (no_id a) (no_id b) = a == b
eq_key _ _ = false

-- A dict in the order of insertion.
abbrev pub Dict : Type 0
Dict = List (Key × Decision)

-- `key in by_id`
pub has_key : Key → Dict → Bool
has_key k [] = false
has_key k ((l, d) ∷ rest) = eq_key k l || has_key k rest

-- `by_id[key] = d`
pub assign : Key → Decision → Dict → Dict
assign k d [] = (k, d) ∷ []
assign k d ((l, x) ∷ rest) =
    let rest' = assign k d rest in if eq_key k l then (l, d) ∷ rest else (l, x) ∷ rest'

-- One round of the loop that drops repeated ids.
pub add_by_id : Option String → Decision → Dict → Dict
unfolding has_key assign
add_by_id none d by_id = assign (no_id (length by_id)) d by_id
add_by_id (some rid) d by_id = if has_key (id rid) by_id then by_id else assign (id rid) d by_id

pub add_decision : Dict → Decision → Dict
unfolding add_by_id
add_decision by_id d = add_by_id d.reconcile_id d by_id

pub add_decisions : Dict → List Decision → Dict
unfolding add_decision
add_decisions by_id [] = by_id
add_decisions by_id (d ∷ ds) = add_decisions (add_decision by_id d) ds

-- `list(by_id.values())`
pub unique : List Decision → List Decision
unfolding add_decisions
unique ds = map (λ entry. entry.1) (add_decisions [] ds)

-- `Counter`, in the order of first appearance.
pub count_one : String → List (String × ℕ) → List (String × ℕ)
count_one r [] = (r, 1) ∷ []
count_one r ((s, n) ∷ rest) =
    let rest' = count_one r rest in if str_eq r s then (s, n + 1) ∷ rest else (s, n) ∷ rest'

pub counter : List (String × ℕ) → List String → List (String × ℕ)
unfolding count_one
counter counts [] = counts
counter counts (r ∷ rs) = counter (count_one r counts) rs

pub record PhpaMetrics : Type 0 where
  pub total_reconciles : ℕ
  pub unique_decisions : ℕ
  pub scaled_true_count : ℕ
  pub stabilized_true_count : ℕ
  pub skip_reasons : List (String × ℕ)

-- `compute_phpa_metrics`; its early return for no decisions gives the same zeros.
pub phpa_metrics : List Decision → PhpaMetrics
unfolding unique counter
phpa_metrics log =
    let decisions = keep_if (λ d. not d.is_applied) log in
    let kept = unique decisions in
    record {
      total_reconciles = length decisions;
      unique_decisions = length kept;
      scaled_true_count = count_if (λ d. d.scaled) kept;
      stabilized_true_count = count_if (λ d. d.stabilized) kept;
      skip_reasons = counter [] (map (λ d. d.skip_reason) kept);
    }

-- `type(value) is not int or value < 0`
abbrev pub is_no_count : Value → Bool
is_no_count (integer n) = ltb_ℤ n (pos 0)
is_no_count _ = true

-- The number of a value that is an instance of int or float; True and False are 1 and 0, and Python
-- compares integers with floats exactly.
abbrev pub number : Value → Option Float
number (boolean true) = some (of_ℤ (pos 1))
number (boolean false) = some (of_ℤ (pos 0))
number (integer n) = some (of_ℤ n)
number (real x) = some x
number _ = none

-- `isinstance(previous, ...) and isinstance(final, ...) and final > previous`
abbrev pub exceeds : Option Float → Option Float → Bool
exceeds (some final) (some previous) = Float.lt previous final
exceeds _ _ = false

abbrev pub micros : ℕ → ℕ
micros s = s * 1000000

abbrev pub inside : ℕ → ℕ → Option ℕ → Bool
inside onset end none = false
inside onset end (some t) = leb (micros onset) t && leb t (micros end)

-- The test in the loop over the candidates.
pub is_upscale : Bool → ℕ → ℕ → Decision → Bool
is_upscale applied onset end d =
    inside onset end d.timestamp
    && d.scaled
    && exceeds (number d.final_desired)
        (number (if applied then d.previous_desired else d.current_replicas))

abbrev pub time_of : Option ℕ → ℕ
time_of none = 0
time_of (some t) = t

abbrev pub earlier_of : ℕ → Option ℕ → Option ℕ
earlier_of t none = some t
earlier_of t (some u) = some (min t u)

-- `min(upscales) if upscales else None`
pub earliest : List ℕ → Option ℕ
earliest [] = none
earliest (t ∷ ts) = earlier_of t (earliest ts)

pub data Source : Type 0 where
  scaled_deployment reconciled : Source

pub record FirstUpscale : Type 0 where
  pub after_onset : Option ℕ
  pub time : Option ℕ
  pub source : Option Source

pub data InvalidCount : Type 0 where
  invalid_previous : InvalidCount

-- `onset` and `end` of the measurement, which both are missing where the window is.
pub upscales : Bool → Option (ℕ × ℕ) → List Decision → List ℕ
unfolding is_upscale
upscales applied none candidates = []
upscales applied (some (onset, end)) candidates =
    map (λ d. time_of d.timestamp) (keep_if (is_upscale applied onset end) candidates)

abbrev pub since_onset : Option (ℕ × ℕ) → Option ℕ → Option ℕ
since_onset (some (onset, end)) (some t) = some (t - micros onset)
since_onset _ _ = none

abbrev pub is_empty {ℓ} : {A : Type ℓ} → List A → Bool
is_empty [] = true
is_empty (x ∷ xs) = false

-- `compute_first_upscale_decision`
pub first_upscale : List Decision → Option (ℕ × ℕ) → Result InvalidCount FirstUpscale
unfolding upscales earliest
first_upscale decisions window = do
  let applied = keep_if (λ d. d.is_applied) decisions
  raise_if (any_of (λ d. is_no_count d.previous_desired) applied) invalid_previous
  let by_updates = not (is_empty applied)
  let candidates = if by_updates then applied else decisions
  let first = earliest (upscales by_updates window candidates)
  ok (record {
    after_onset = since_onset window first;
    time = first;
    source =
        if is_empty decisions
        then none
        else some (if by_updates then Source.scaled_deployment else Source.reconciled);
  })

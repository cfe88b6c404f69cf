-- ===== src/Extract/Loaders/K6/Contribution.antt =====
-- hack/analyze/extract.py, load_k6: what a line may contribute to the totals.
use predictive_hpa.Prelude.{
  ℕ, ◌+◌, Bool, true, false, not, ◌&&◌, ◌≡◌, refl, sym, Option, none, List, [], ◌∷◌, ◌++◌, Result,
  ok, err, if◌then◌else◌, arith,
}
use predictive_hpa.Prelude.Int.{ℤ, pos, negsuc, ◌+ℤ◌, eq_ℤ}
use predictive_hpa.Json.{Json, is_null, is_str, at, Error}
use predictive_hpa.Extract.Loaders.Values.{Parsers, parse_iso_to_utc}
use predictive_hpa.Extract.Loaders.K6.{Totals}
use predictive_hpa.Float.{Float}
use mathlib.Core.List.{append-nil}

abbrev pub is_point : Json → Bool
is_point v = is_str "Point" (at ("type" ∷ []) v)

abbrev pub is_timed : Json → Json → Bool
is_timed metric value = is_str "http_req_duration" metric && not (is_null value)

-- The line is a point that times a request.
abbrev pub is_duration : Json → Bool
is_duration v = is_point v && is_timed (at ("metric" ∷ []) v) (at ("data" ∷ "value" ∷ []) v)

-- The request was answered with the status 200.
abbrev pub is_200 : Json → Bool
is_200 v = is_str "200" (at ("data" ∷ "tags" ∷ "status" ∷ []) v)

-- The scenario expected the response.
abbrev pub is_expected : Json → Bool
is_expected v = is_str "true" (at ("data" ∷ "tags" ∷ "expected_response" ∷ []) v)

abbrev time_or_none : Result Error (Option ℤ) → Option ℤ
time_or_none (ok t) = t
time_or_none (err e) = none

-- The time of a point, where it has one that can be read.
abbrev pub time_of : Parsers → Json → Option ℤ
time_of p v = time_or_none (parse_iso_to_utc p (at ("data" ∷ "time" ∷ []) v))

-- What a line adds to the totals.
pub record Contribution : Type 0 where
  pub durations : List Float
  pub successes : List Float
  pub answered : ℕ
  pub requests : ℤ
  pub failed : ℕ
  pub dropped : ℤ

abbrev pub number_or_zero : Result Error ℤ → ℤ
number_or_zero (ok n) = n
number_or_zero (err e) = pos 0

abbrev pub known : Result Error Float → List Float
known (ok x) = x ∷ []
known (err e) = []

-- The contribution of a value, as the number `n` or the durations `ms`, to the metric that it is of.
abbrev pub contribution_if : Bool → Bool → Bool → Bool → Bool → Bool → ℤ → List Float → Contribution
contribution_if is_requests is_failed is_dropped timed is_ok expected n ms = record {
  durations = if timed then ms else [];
  successes = if timed && (expected && is_ok) then ms else [];
  answered = if timed && is_ok then 1 else 0;
  requests = if is_requests then n else pos 0;
  failed = if is_failed && eq_ℤ n (pos 1) then 1 else 0;
  dropped = if is_dropped then n else pos 0;
}

abbrev pub nothing : Contribution
nothing = record {
  durations = [];
  successes = [];
  answered = 0;
  requests = pos 0;
  failed = 0;
  dropped = pos 0;
}

pub record IsCounted (c : Contribution) (t t' : Totals) : Type 0 where
  pub durations : t'.all_durations_ms ≡ t.all_durations_ms ++ c.durations
  pub successes : t'.success_durations_ms ≡ t.success_durations_ms ++ c.successes
  pub answered : t'.http_200_count ≡ c.answered + t.http_200_count
  pub requests : t'.total_reqs ≡ t.total_reqs +ℤ c.requests
  pub failed : t'.failed_count ≡ c.failed + t.failed_count
  pub dropped : t'.dropped ≡ t.dropped +ℤ c.dropped
  pub started : t'.observed_start_time ≡ t.observed_start_time

pub add_zero : (n : ℤ) → (n +ℤ pos 0) ≡ n
unfolding ◌+ℤ◌
add_zero (pos n) = ground arith
add_zero (negsuc n) = ground arith

pub append_if :
    {A : Type 0} (b : Bool) (xs ys : List A)
    → (if b then xs ++ ys else xs) ≡ xs ++ (if b then ys else [])
append_if true xs ys = refl
append_if false xs ys = sym (append-nil xs)

pub nothing-IsCounted : (t : Totals) → IsCounted nothing t t
nothing-IsCounted t = record {
  durations = sym (append-nil t.all_durations_ms);
  successes = sym (append-nil t.success_durations_ms);
  answered = omega arith;
  requests = sym (add_zero t.total_reqs);
  failed = omega arith;
  dropped = sym (add_zero t.dropped);
  started = refl;
}

-- ===== src/LiveBaseline/Business/Tally.antt =====
-- hack/analyze/live_baseline.py, business_evidence: what one point adds to the counts.
use predictive_hpa.Prelude.{
  ℕ, ◌+◌, String, true, false, not, ◌&&◌, ◌≡◌, inl, inr, sym, ap, Option, some, none, List, [], ◌∷◌,
  ok, ok-injective, if◌then◌else◌, count_if, any_of-eq-false, Bool-cases, arith,
}
use predictive_hpa.Prelude.Int.{pos}
use predictive_hpa.Float
use predictive_hpa.Float.{Float, of_ℤ}
use predictive_hpa.Json.{Json, str, at, is_str, is_str-eq}
use predictive_hpa.LiveBaseline.Refusal.{Refusal, is_one_of, plain_number}
use predictive_hpa.LiveBaseline.Business.{Counts, counted, whole_part, add_point, measured}
use mathlib.Core.Path.{subst}

-- The metric of a point, and what it counts for.
abbrev pub metric : Json → Json
metric point = at ("metric" ∷ []) point

abbrev pub tally : String → ℕ → Json → ℕ
tally k n name = if is_str k name then n else 0

abbrev pub amount : Option Float → ℕ
amount none = 0
amount (some x) = whole_part x

abbrev pub requests_of : Json → ℕ
requests_of point =
    tally "http_reqs" (amount (plain_number (at ("value" ∷ []) (at ("data" ∷ []) point))))
      (metric point)

abbrev pub named : String → List Json → ℕ
named k points = count_if (λ p. is_str k (metric p)) points

-- The four counts, each with what a name adds.
abbrev pub Adds : Json → ℕ → Counts → Counts → Type 0
Adds name n c d =
    (d.requests ≡ c.requests + tally "http_reqs" n name)
    × (d.durations ≡ c.durations + tally "http_req_duration" 1 name)
    × (d.failed ≡ c.failed + tally "http_req_failed" 1 name)
    × (d.attempts ≡ c.attempts + tally "baseline_request_attempt" 1 name)

add_named :
    (k : String) (name : Json) (x : Float) (c : Counts)
    → is_str k name ≡ true
    → Adds (str k) (whole_part x) c (add_point (str k) x c)
    → Adds name (whole_part x) c (add_point name x c)
add_named k name x c e h =
    subst (λ v. Adds v (whole_part x) c (add_point v x c)) (sym (is_str-eq k name e)) h

pub add_point-Adds :
    (name : Json) (x : Float) (c : Counts) → Adds name (whole_part x) c (add_point name x c)
add_point-Adds name x c = elim (Bool-cases (is_str "http_reqs" name)) [
  | inl e ↦ add_named "http_reqs" name x c e (omega arith, omega arith, omega arith, omega arith)
  | inr e ↦ elim (Bool-cases (is_str "http_req_duration" name)) [
    | inl f ↦
        add_named "http_req_duration" name x c f
          (omega arith, omega arith, omega arith, omega arith)
    | inr f ↦ elim (Bool-cases (is_str "http_req_failed" name)) [
      | inl g ↦
          add_named "http_req_failed" name x c g
            (omega arith, omega arith, omega arith, omega arith)
      | inr g ↦ elim (Bool-cases (is_str "baseline_request_attempt" name)) [
        | inl i ↦
            add_named "baseline_request_attempt" name x c i
              (omega arith, omega arith, omega arith, omega arith)
        | inr i ↦ rw (e, f, g, i) (omega arith, omega arith, omega arith, omega arith)
      ]
    ]
  ]
]

-- A metric that is not counted adds nothing.
pub skipped-Adds :
    (name : Json) (n : ℕ) (c : Counts) → is_one_of counted name ≡ false → Adds name n c c
skipped-Adds name n c h =
    let none_of = any_of-eq-false (λ k. is_str k name) counted h in
    rw (none_of.0, none_of.1.0, none_of.1.1.0, none_of.1.1.1.0)
      (omega arith, omega arith, omega arith, omega arith)

pub measured-eq : (v : Option Float) (x : Float) → measured v ≡ ok x → v ≡ some x
measured-eq none x h = cc
measured-eq (some y) x h = elim (Bool-cases (Float.isfinite y && not (Float.lt_int y (pos 0)))) [
  | inl e ↦ ap some (ok-injective {E = Refusal} y x (rw e at h))
  | inr e ↦ let h' = rw e at h in cc
]

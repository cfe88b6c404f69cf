-- ===== src/LiveBaseline/Observations/Backed.antt =====
-- hack/analyze/live_baseline.py, analyze: every decision that is accepted has its observation, and
-- every write its decision.
use predictive_hpa.Prelude.{
  Bool, true, false, not, ◌≡◌, ◌⊎◌, inl, inr, ap, ◌∙◌, List, [], ◌∷◌, ok, All, Bool-cases,
  if◌then◌else◌, on_ok, String, Result, ok-injective,
}
use predictive_hpa.Prelude.Inversion.{◌>>=◌, returned}
use predictive_hpa.Float
use predictive_hpa.Float.{Float}
use predictive_hpa.Json.{Json, get, get-at, at, is_bool, truthy, Error}
use predictive_hpa.Latency.Values.{Clock, Arithmetic, epoch}
use predictive_hpa.Latency.Cycles.{Cycle, query, decision, scale}
use predictive_hpa.LiveBaseline.Refusal.{caught, caught-eq-ok}
use predictive_hpa.LiveBaseline.Checks.{refuse_if, on_last, test, test-eq-false, not-false}
use predictive_hpa.LiveBaseline.Observations.{
  Accepted, Write, row_or_empty, check_cycle, read_cycle, read_cycles,
}

-- A decision stands on a query without an error, and a write that was made on a decision.
pub record IsBacked (c : Cycle) : Type 0 where
  pub decided :
      (truthy (row_or_empty decision c) ≡ false)
      ⊎ ((truthy (row_or_empty query c) ≡ true)
          × (truthy (at ("queryError" ∷ []) (row_or_empty query c)) ≡ false))
  pub written :
      (truthy (row_or_empty scale c) ≡ false)
      ⊎ ((truthy (row_or_empty decision c) ≡ true)
          × (is_bool true (at ("scaled" ∷ []) (row_or_empty scale c)) ≡ true))

-- A test of a field that does not hold.
field-test :
    (p : Json → Bool) (k : String) (v : Json)
    → test p (get k v) ≡ ok false
    → p (at (k ∷ []) v) ≡ false
field-test p k v h = test-eq-false p (get k v) h λ w read no. ap p (get-at k v w read) ∙ no

was_true : (b : Bool) → ◌≡◌ {A = Result Error Bool} (ok (not b)) (ok false) → b ≡ true
was_true b h = not-false b (ok-injective {E = Error} _ _ h)

check_cycle-IsBacked :
    (c : Cycle)
    → check_cycle (row_or_empty query c) (row_or_empty decision c) (row_or_empty scale c) ≡ ok tt
    → IsBacked c
unfolding check_cycle
check_cycle-IsBacked c h =
    let queried = row_or_empty query c in
    let decided = row_or_empty decision c in
    let scaled = row_or_empty scale c in
    on_ok
      (if truthy decided
        then refuse_if _ "Accepted controller decision lacks its successful source observation"
        else ok tt)
      _ h
      λ _ first second. record {
        decided = elim (Bool-cases (truthy decided)) [
          | inr e ↦ inl e
          | inl e ↦
              let (some_query, rest) = on_last _ _ (rw e at first) in
              (inr (
                was_true (truthy queried) some_query,
                field-test truthy "queryError" queried rest.0,
              ))
        ];
        written = elim (Bool-cases (truthy scaled)) [
          | inr e ↦ inl e
          | inl e ↦
              let (some_decision, rest) = on_last _ _ (rw e at second) in
              inr (
                was_true (truthy decided) some_decision,
                not-false _ (field-test (λ v. not (is_bool true v)) "scaled" scaled rest.0),
              )
        ];
      }

module _ (a : Arithmetic) (onset : Float) (clock : Clock) (stop log_start : Float) where
  -- A cycle begins before the log's start, or is backed.
  abbrev pub IsBackedFrom : Cycle → Type 0
  IsBackedFrom c =
      (started : Float) × (epoch clock c.started_at ≡ ok started)
      × ((Float.lt started log_start ≡ true) ⊎ IsBacked c)

  -- When the loop over the cycles returns, in every cycle that does not begin before the log's start a
  -- decision stands on a query without an error, and a write was made on a decision.
  pub read_cycles-backed :
      (cs : List Cycle) (found : List Accepted × List Write)
      → read_cycles a onset clock stop log_start cs ≡ ok found
      → All IsBackedFrom cs
  unfolding read_cycles read_cycle
  read_cycles-backed [] found h = tt
  read_cycles-backed (c ∷ cs) found h = do
    (started, s, h1) ← returned (caught (epoch clock c.started_at)) _ h
    let at_start = caught-eq-ok (epoch clock c.started_at) started s
    elim (Bool-cases (Float.lt started log_start)) [
      | inl e ↦ ((started, at_start, inl e), read_cycles-backed cs found (rw e at h1))
      | inr e ↦ do
        (_, one, h2) ← returned (read_cycle a onset clock stop c) _ (rw e at h1)
        (others, rest, _) ← returned (read_cycles a onset clock stop log_start cs) _ h2
        (_, checked, _) ←
            returned
              (check_cycle (row_or_empty query c) (row_or_empty decision c) (row_or_empty scale c))
              _ one
        (
          (started, at_start, inr (check_cycle-IsBacked c checked)),
          read_cycles-backed cs others rest,
        )
    ]

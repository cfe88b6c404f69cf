-- ===== src/LiveBaseline/Identity.antt =====
-- hack/analyze/live_baseline.py, validate_evidence: that the plan, the metadata, the gate and the
-- observer's status tell of the same run, which succeeded.
use Prim.Native.Char.{Char, code}
use Prim.Native.String as Text
use predictive_hpa.Prelude.{
  ℕ, zero, suc, String, Bool, true, false, not, ◌&&◌, ◌||◌, [], ◌∷◌, Result, ok, err, ◌>>=◌, ◌>>◌,
  if◌then◌else◌, leb,
}
use predictive_hpa.Json.{
  Json, str, obj, Fields, is_obj, is_bool, is_str, truthy, eq, get, get_or, item, has_field, Error,
}
use predictive_hpa.LiveBaseline.Refusal.{Refusal}
use predictive_hpa.LiveBaseline.Checks.{refuse_if, item_at, test, differ}
use text.Mathlib.Text.{◌==◌ as str_eq}

-- A text that is not empty.
abbrev pub is_name : Json → Bool
is_name (str s) = not (str_eq s "")
is_name _ = false

-- `metadata.get(name, plan[name]) != plan[name]`
abbrev pub differ_where_given : String → Json → Fields → Result Error Bool
differ_where_given name metadata plan = do
  planned ← item name (obj plan)
  given ← get_or name planned metadata
  ok (not (eq given planned))

-- `re.fullmatch(r"[a-f0-9]{64}", s)`
abbrev pub is_hex : Char → Bool
is_hex c = (leb b'a' (code c) && leb (code c) b'f') || (leb b'0' (code c) && leb (code c) b'9')

abbrev pub is_hex_of_length : ℕ → String → Bool
is_hex_of_length zero Text.[] = true
is_hex_of_length (suc n) (Text.◌∷◌ c s) = is_hex c && is_hex_of_length n s
is_hex_of_length _ _ = false

abbrev pub not_digest : Json → Result Error Bool
not_digest (str s) = ok (not (is_hex_of_length 64 s))
not_digest _ = err Error.type_error

-- The check of one identifier that the plan may fix.
unfoldable pub check_uid : Fields → Fields → String → Result Refusal (Unit {0})
check_uid plan gate key =
    refuse_if
      ((if has_field key plan then differ (item key (obj plan)) (item key (obj gate)) else ok false)
        ∷ [])
      (Text.◌++◌ "Plan " (Text.◌++◌ key " disagrees with gate"))

unfoldable pub check_source : Json → Fields → Result Refusal (Unit {0})
check_source metadata plan = do
  refuse_if
      ((if has_field "source_sha256" plan
          then differ (item "source_sha256" (obj plan)) (get "benchmark_source_sha256" metadata)
          else ok false)
        ∷ [])
      "Plan source SHA256 disagrees with metadata"
  refuse_if
      ((if has_field "source_sha256" plan
          then (do digest ← item "source_sha256" (obj plan); not_digest digest)
          else ok false)
        ∷ [])
      "Plan source SHA256 must be a lowercase SHA256 digest"

unfoldable pub check_metadata : Json → Fields → Result Refusal (Unit {0})
check_metadata metadata plan = do
  refuse_if
      (ok (not (is_obj metadata)) ∷ test (λ v. not (is_name v)) (get "experiment_id" metadata) ∷ [])
      "Metadata must identify the experiment"
  refuse_if
      (test (λ v. not (is_str "success" v)) (item_at ("result" ∷ "status" ∷ []) metadata)
        ∷ test truthy (do result ← item "result" metadata; get "failure_reason" result)
        ∷ [])
      "Runner did not report successful completion and cleanup"
  refuse_if
      (test (λ v. not (is_bool true v)) (get "live_baseline" metadata)
        ∷ differ (item_at ("decision_mode" ∷ []) metadata)
            (item_at ("decision_mode" ∷ []) (obj plan))
        ∷ [])
      "Metadata baseline identity or mode disagrees with plan"
  refuse_if (differ_where_given "pattern" metadata plan ∷ []) "Metadata pattern disagrees with plan"

unfoldable pub check_status : Fields → Result Refusal (Unit {0})
check_status status =
    refuse_if
      (test (λ v. not (is_str "success" v)) (item "status" (obj status))
        ∷ test (λ v. not (is_bool true v)) (item "owned_processes_stopped" (obj status))
        ∷ test truthy (item "errors" (obj status))
        ∷ test (λ v. not (is_bool true v)) (item "gate_released" (obj status))
        ∷ [])
      "Observer did not finish successfully and stop its owned processes"

unfoldable pub check_identity : Json → Fields → Fields → Fields → Result Refusal (Unit {0})
check_identity metadata plan gate status = do
  check_metadata metadata plan
  check_status status
  refuse_if
      (differ (item "startup_mode" (obj gate)) (item "startup_mode" (obj plan))
        ∷ test (λ v. not (truthy v)) (item "target_uid" (obj gate))
        ∷ test (λ v. not (truthy v)) (item "phpa_uid" (obj gate))
        ∷ [])
      "Gate startup mode or resource identity is missing"
  refuse_if (differ_where_given "startup_mode" metadata plan ∷ [])
      "Metadata startup mode disagrees with plan"
  check_uid plan gate "target_uid"
  check_uid plan gate "phpa_uid"
  check_source metadata plan

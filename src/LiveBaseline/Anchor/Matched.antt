-- ===== src/LiveBaseline/Anchor/Matched.antt =====
-- hack/analyze/live_baseline.py, validate_evidence: the reconciliation that a warm run is anchored to
-- is one of the controller's log.
use predictive_hpa.Prelude.{
  not, ◌≡◌, refl, ap, ◌∙◌, List, [], ◌∷◌, Result, ok, err, ok-injective, keep_if, get_last?,
}
use predictive_hpa.Prelude.Inversion.{◌>>=◌, returned, not_raised}
use predictive_hpa.Float.{Float}
use predictive_hpa.Json.{Json, obj, Fields, is_obj, item, eq, Error}
use predictive_hpa.Latency.Values.{Clock, Arithmetic, le}
use predictive_hpa.Latency.Cycles.{Cycle}
use predictive_hpa.LiveBaseline.Refusal.{Refusal, caught, caught-eq-ok}
use predictive_hpa.LiveBaseline.Marker.{time_at}
use predictive_hpa.LiveBaseline.Samples.{metrics, samples}
use predictive_hpa.LiveBaseline.Anchor.{
  check_matching, check_accepted, check_protection, check_ready, last_ready, anchor_start,
}

-- One cycle of the log has the start of the gate's anchor, which is the start that counts.
pub record IsAnchored (clock : Clock) (gate : Fields) (cycles : List Cycle) (start : Float)
    : Type 0 where
  pub anchor : Json
  pub started : Json
  pub cycle : Cycle
  pub given : item "anchor" (obj gate) ≡ ok anchor
  pub begins : time_at clock "reconcileStartedAt" anchor ≡ ok start
  pub stated : item "reconcileStartedAt" anchor ≡ ok started
  pub only : keep_if (λ (c : Cycle). eq c.started_at started) cycles ≡ cycle ∷ []

no_err : {P : Type 0} (e : Refusal) → ◌≡◌ {A = Result Refusal (Unit {0})} (err e) (ok tt) → P
no_err e h = cc

only_cycle :
    (anchor : Json) (cycles : List Cycle)
    → check_matching anchor cycles ≡ ok tt
    → (c : Cycle) × (cycles ≡ c ∷ [])
unfolding check_matching
only_cycle anchor (c ∷ []) h = (c, refl)
only_cycle anchor [] h = no_err _ h
only_cycle anchor (c ∷ d ∷ cs) h = no_err _ h

module _ (clock : Clock) (a : Arithmetic) (to_float : Json → Result Error Float) where
  pub anchor_start-IsAnchored :
      (plan gate : Fields) (release onset : Float) (rows : List Json) (cycles : List Cycle)
      (start : Float)
      → anchor_start clock a to_float plan gate release onset rows cycles ≡ ok start
      → IsAnchored clock gate cycles start
  unfolding anchor_start
  anchor_start-IsAnchored plan gate release onset rows cycles start h = do
    (anchor, given, h1) ← returned (caught (item "anchor" (obj gate))) _ h
    (_, h2) ← not_raised (not (is_obj anchor)) _ _ h1
    (started, stated, h3) ← returned (caught (item "reconcileStartedAt" anchor)) _ h2
    (_, matching, h4) ←
        returned (check_matching anchor (keep_if (λ c. eq c.started_at started) cycles)) _ h3
    (queried, _, h5) ← returned (caught (item "query" anchor)) _ h4
    (decided, _, h6) ← returned (caught (item "decision" anchor)) _ h5
    (finished, _, h7) ← returned (caught (item "finish" anchor)) _ h6
    (_, _, h8) ← returned (check_accepted clock a to_float queried decided finished) _ h7
    (_, _, h9) ← returned (check_protection clock a to_float plan release decided finished) _ h8
    (begun, begins, h10) ← returned (caught (time_at clock "reconcileStartedAt" anchor)) _ h9
    (readings, _, h11) ← returned (samples clock rows "phpa" metrics) _ h10
    (_, _, h12) ←
        returned
          (check_ready clock a to_float plan onset
            (last_ready (get_last? (keep_if (λ r. le r.finish onset) readings))))
          _ h11
    let (c, one) = only_cycle anchor _ matching in
        record {
          anchor = anchor;
          started = started;
          cycle = c;
          given = caught-eq-ok (item "anchor" (obj gate)) anchor given;
          begins =
              caught-eq-ok (time_at clock "reconcileStartedAt" anchor) begun begins
              ∙ ap ok (ok-injective {E = Refusal} begun start h12);
          stated = caught-eq-ok (item "reconcileStartedAt" anchor) started stated;
          only = one;
        }

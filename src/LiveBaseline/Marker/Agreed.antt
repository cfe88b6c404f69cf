-- ===== src/LiveBaseline/Marker/Agreed.antt =====
-- hack/analyze/live_baseline.py, schedule: what the markers of an accepted run agree on.
use predictive_hpa.Prelude.{
  true, false, not, ◌≡◌, refl, List, [], ◌∷◌, ok, ok-injective, All, All-map, any_of,
  any_of-eq-false,
}
use predictive_hpa.Prelude.Inversion.{◌>>=◌, returned, not_raised}
use predictive_hpa.Prelude.Int.{pos}
use predictive_hpa.Float.{Float, of_ℤ}
use predictive_hpa.Json.{Json, obj, Fields, eq}
use predictive_hpa.Latency.Values.{Clock, Arithmetic, le}
use predictive_hpa.LiveBaseline.Refusal.{Refusal, caught, caught-eq-ok}
use predictive_hpa.LiveBaseline.Checks.{not_refused, not-false}
use predictive_hpa.LiveBaseline.Marker.{Actual, number_of, time_at, off, schedule}
use mathlib.Core.Path.{subst}

module _ (a : Arithmetic) (clock : Clock) where
  -- All markers state the same three times, which lie apart by what the plan states, to 0.001 s.
  pub record IsAgreed (markers : List Json) (plan : Fields) (actual : Actual) : Type 0 where
    pub first : Json
    pub others : List Json
    pub listed : markers ≡ first ∷ others
    pub same : All (λ row. eq row first ≡ true) others
    pub starts : time_at clock "scenario_start_unix" first ≡ ok actual.scenario_start
    pub loads : time_at clock "onset_unix" first ≡ ok actual.load_onset
    pub stops : time_at clock "offered_end_unix" first ≡ ok actual.offered_load_end
    pub positive : le actual.scenario_start (of_ℤ (pos 0)) ≡ false
    pub quiet :
        (n : Float) × (number_of "quiet_seconds" (obj plan) ≡ ok n)
        × (off a actual.load_onset actual.scenario_start n ≡ false)
    pub offered :
        (n : Float) × (number_of "offered_duration_seconds" (obj plan) ≡ ok n)
        × (off a actual.offered_load_end actual.load_onset n ≡ false)
    pub tail :
        (n : Float) × (number_of "post_load_tail_seconds" (obj plan) ≡ ok n)
        × (actual.observation_end ≡ a.plus actual.offered_load_end n)

  -- When schedule returns, there is a marker, all markers are equal to it, the times are those that it
  -- states, the start is positive, the onset and the end of the load are as far from the start and the
  -- onset as the plan states, to 0.001 s, and the observation ends the plan's tail after the load.
  pub schedule-IsAgreed :
      (markers : List Json) (plan : Fields) (actual : Actual)
      → schedule a clock markers plan ≡ ok actual
      → IsAgreed markers plan actual
  unfolding schedule
  schedule-IsAgreed [] plan actual h = cc
  schedule-IsAgreed (first ∷ rest) plan actual h = do
    (start, s, h1) ← returned (caught (time_at clock "scenario_start_unix" first)) _ h
    (onset, o, h2) ← returned (caught (time_at clock "onset_unix" first)) _ h1
    (end, e, h3) ← returned (caught (time_at clock "offered_end_unix" first)) _ h2
    (equal, h4) ← not_raised (any_of (λ row. not (eq row first)) rest) _ _ h3
    (positive, h5) ← not_raised (le start (of_ℤ (pos 0))) _ _ h4
    (quiet, q, h6) ← returned (caught (number_of "quiet_seconds" (obj plan))) _ h5
    (silent, h7) ← not_raised (off a onset start quiet) _ _ h6
    (offered, f, h8) ← returned (caught (number_of "offered_duration_seconds" (obj plan))) _ h7
    (lasting, h9) ← not_raised (off a end onset offered) _ _ h8
    (_, h10) ← not_refused _ _ _ h9
    (tail, t, h11) ← returned (caught (number_of "post_load_tail_seconds" (obj plan))) _ h10
    subst (IsAgreed (first ∷ rest) plan) (ok-injective {E = Refusal} _ _ h11) (record {
      first = first;
      others = rest;
      listed = refl;
      same =
          All-map rest (λ row no. not-false (eq row first) no)
            (any_of-eq-false (λ row. not (eq row first)) rest equal);
      starts = caught-eq-ok (time_at clock "scenario_start_unix" first) start s;
      loads = caught-eq-ok (time_at clock "onset_unix" first) onset o;
      stops = caught-eq-ok (time_at clock "offered_end_unix" first) end e;
      positive = positive;
      quiet = (quiet, caught-eq-ok (number_of "quiet_seconds" (obj plan)) quiet q, silent);
      offered = (
        offered,
        caught-eq-ok (number_of "offered_duration_seconds" (obj plan)) offered f,
        lasting,
      );
      tail = (tail, caught-eq-ok (number_of "post_load_tail_seconds" (obj plan)) tail t, refl);
    })

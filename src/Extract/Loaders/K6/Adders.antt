-- ===== src/Extract/Loaders/K6/Adders.antt =====
-- hack/analyze/extract.py, load_k6: what the branches for the metrics add to the totals.
use predictive_hpa.Prelude.{
  Bool, true, false, ◌&&◌, ◌≡◌, refl, List, [], ◌∷◌, ok, on_ok, ok-injective,
}
use predictive_hpa.Prelude.Int.{ℤ, pos}
use predictive_hpa.Json.{Json, int, get, or_else, is_str, at, get-at, Error}
use predictive_hpa.Extract.Loaders.Values.{Parsers, int_of, float_of}
use predictive_hpa.Extract.Loaders.K6.{Totals, add_requests, add_failed, add_dropped, add_duration}
use predictive_hpa.Float.{Float}
use mathlib.Core.Path.{subst}
use predictive_hpa.Extract.Loaders.K6.Contribution.{
  number_or_zero, known, contribution_if, IsCounted, append_if, nothing-IsCounted,
}

module _ (p : Parsers) where
  pub add_requests-IsCounted :
      (is_ok expected : Bool) (value : Json) (ms : List Float) (t t' : Totals)
      → add_requests p value t ≡ ok t'
      → IsCounted
          (contribution_if true false false false is_ok expected
            (number_or_zero (int_of p (or_else value (int (pos 0)))))
            ms)
          t
          t'
  unfolding add_requests
  add_requests-IsCounted is_ok expected value ms t t' h =
      on_ok (int_of p (or_else value (int (pos 0)))) _ h λ n e h'. rw e (
        subst (IsCounted (contribution_if true false false false is_ok expected n ms) t)
          (ok-injective {E = Error} _ _ h')
          (let z = nothing-IsCounted t in
            record {
              durations = z.durations;
              successes = z.successes;
              answered = z.answered;
              requests = refl;
              failed = z.failed;
              dropped = z.dropped;
              started = z.started;
            }))

  pub add_failed-IsCounted :
      (is_ok expected : Bool) (value : Json) (ms : List Float) (t t' : Totals)
      → add_failed p value t ≡ ok t'
      → IsCounted
          (contribution_if false true false false is_ok expected
            (number_or_zero (int_of p (or_else value (int (pos 0)))))
            ms)
          t
          t'
  unfolding add_failed
  add_failed-IsCounted is_ok expected value ms t t' h =
      on_ok (int_of p (or_else value (int (pos 0)))) _ h λ n e h'. rw e (
        subst (IsCounted (contribution_if false true false false is_ok expected n ms) t)
          (ok-injective {E = Error} _ _ h')
          (let z = nothing-IsCounted t in
            record {
              durations = z.durations;
              successes = z.successes;
              answered = z.answered;
              requests = z.requests;
              failed = refl;
              dropped = z.dropped;
              started = z.started;
            }))

  pub add_dropped-IsCounted :
      (is_ok expected : Bool) (value : Json) (ms : List Float) (t t' : Totals)
      → add_dropped p value t ≡ ok t'
      → IsCounted
          (contribution_if false false true false is_ok expected
            (number_or_zero (int_of p (or_else value (int (pos 0)))))
            ms)
          t
          t'
  unfolding add_dropped
  add_dropped-IsCounted is_ok expected value ms t t' h =
      on_ok (int_of p (or_else value (int (pos 0)))) _ h λ n e h'. rw e (
        subst (IsCounted (contribution_if false false true false is_ok expected n ms) t)
          (ok-injective {E = Error} _ _ h')
          (let z = nothing-IsCounted t in
            record {
              durations = z.durations;
              successes = z.successes;
              answered = z.answered;
              requests = z.requests;
              failed = z.failed;
              dropped = refl;
              started = z.started;
            }))

  pub add_duration-IsCounted :
      (value tags : Json) (n : ℤ) (t t' : Totals)
      → add_duration p value tags t ≡ ok t'
      → IsCounted
          (contribution_if false false false true
            (is_str "200" (at ("status" ∷ []) tags))
            (is_str "true" (at ("expected_response" ∷ []) tags))
            n
            (known (float_of p value)))
          t
          t'
  unfolding add_duration
  add_duration-IsCounted value tags n t t' h = on_ok (float_of p value) _ h λ ms m h1.
      on_ok (get "status" tags) _ h1 λ status s h2.
        on_ok (get "expected_response" tags) _ h2 λ expected e h3.
          rw (m, get-at "status" tags status s, get-at "expected_response" tags expected e)
            (subst
              (IsCounted
                (contribution_if false false false true (is_str "200" status)
                  (is_str "true" expected) n (ms ∷ []))
                t)
              (ok-injective {E = Error} _ _ h3)
              (let z = nothing-IsCounted t in
                record {
                  durations = refl;
                  successes =
                      append_if (is_str "true" expected && is_str "200" status)
                        t.success_durations_ms (ms ∷ []);
                  answered = refl;
                  requests = z.requests;
                  failed = z.failed;
                  dropped = z.dropped;
                  started = z.started;
                }))

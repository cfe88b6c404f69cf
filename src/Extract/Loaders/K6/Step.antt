-- ===== src/Extract/Loaders/K6/Step.antt =====
-- hack/analyze/extract.py, load_k6: what one line adds to the totals.
use predictive_hpa.Prelude.{
  String, true, false, ◌≡◌, refl, sym, ap, ◌∙◌, [], ◌∷◌, ok, on_ok, ok-injective, if◌then◌else◌,
  Bool-cases, inl, inr,
}
use predictive_hpa.Prelude.Int.{ℤ, pos}
use predictive_hpa.Json.{
  Json, obj, int, end, get, get_or, or_else, is_null, is_str, at, get-at, get_or-at, is_str-eq,
  Error,
}
use predictive_hpa.Extract.Loaders.Values.{Parsers, int_of, float_of, parse_iso_to_utc}
use predictive_hpa.Extract.Loaders.K6.{
  Totals, earlier, add_duration, add_metric, add_data, add_point,
}
use text.Mathlib.Text.{◌==◌ as str_eq}
use mathlib.Core.Path.{subst}
use predictive_hpa.Extract.Loaders.K6.Contribution.{
  is_point, is_timed, is_200, is_expected, time_of, Contribution, number_or_zero, known,
  contribution_if, nothing, IsCounted, nothing-IsCounted,
}
use predictive_hpa.Extract.Loaders.K6.Adders.{
  add_requests-IsCounted, add_failed-IsCounted, add_dropped-IsCounted, add_duration-IsCounted,
}

module _ (p : Parsers) where
  -- The contribution of a point.
  abbrev pub contribution : Json → Json → Json → Contribution
  contribution metric value tags =
      contribution_if (is_str "http_reqs" metric) (is_str "http_req_failed" metric)
        (is_str "dropped_iterations" metric) (is_timed metric value)
        (is_str "200" (at ("status" ∷ []) tags))
        (is_str "true" (at ("expected_response" ∷ []) tags))
        (number_or_zero (int_of p (or_else value (int (pos 0))))) (known (float_of p value))

  -- A text is no other.
  other_metric :
      (name other : String) (metric : Json)
      → str_eq name other ≡ false
      → is_str name metric ≡ true
      → is_str other metric ≡ false
  other_metric name other metric differs h =
      subst (λ m. is_str other m ≡ false) (sym (is_str-eq name metric h)) differs

  timed_metric-IsCounted :
      (metric value tags : Json) (n : ℤ) (t t' : Totals)
      → (if is_str "http_req_duration" metric
          then (if is_null value then ok t else add_duration p value tags t)
          else ok t)
        ≡ ok t'
      → IsCounted
          (contribution_if false false false
            (is_timed metric value)
            (is_str "200" (at ("status" ∷ []) tags))
            (is_str "true" (at ("expected_response" ∷ []) tags))
            n
            (known (float_of p value)))
          t
          t'
  timed_metric-IsCounted metric value tags n t t' h =
      elim (Bool-cases (is_str "http_req_duration" metric)) [
        | inr other ↦ rw other (
            subst (IsCounted nothing t) (ok-injective {E = Error} _ _ (rw other at h))
              (nothing-IsCounted t))
        | inl timed ↦ elim (Bool-cases (is_null value)) [
          | inl e ↦
              rw (timed, e)
                (subst (IsCounted nothing t) (ok-injective {E = Error} _ _ (rw (timed, e) at h))
                  (nothing-IsCounted t))
          | inr e ↦ rw (timed, e) (add_duration-IsCounted p value tags n t t' (rw (timed, e) at h))
        ]
      ]

  add_metric-IsCounted :
      (metric value tags : Json) (t t' : Totals)
      → add_metric p metric value tags t ≡ ok t'
      → IsCounted (contribution metric value tags) t t'
  unfolding add_metric
  add_metric-IsCounted metric value tags t t' h = elim (Bool-cases (is_str "http_reqs" metric)) [
    | inl e ↦
        let others = λ (name : String) (d : str_eq "http_reqs" name ≡ false).
          other_metric "http_reqs" name metric d e in
        rw
          (
            e,
            others "http_req_failed" refl,
            others "dropped_iterations" refl,
            others "http_req_duration" refl,
          )
          (add_requests-IsCounted p false false value [] t t' (rw e at h))
    | inr n ↦ elim (Bool-cases (is_str "http_req_failed" metric)) [
      | inl e ↦
          let others = λ (name : String) (d : str_eq "http_req_failed" name ≡ false).
            other_metric "http_req_failed" name metric d e in
          rw (n, e, others "dropped_iterations" refl, others "http_req_duration" refl)
            (add_failed-IsCounted p false false value [] t t' (rw (n, e) at h))
      | inr n' ↦ elim (Bool-cases (is_str "dropped_iterations" metric)) [
        | inl e ↦
            rw (n, n', e, other_metric "dropped_iterations" "http_req_duration" metric refl e)
              (add_dropped-IsCounted p false false value [] t t' (rw (n, n', e) at h))
        | inr n'' ↦
            rw (n, n', n'')
              (timed_metric-IsCounted metric value tags (pos 0) t t' (rw (n, n', n'') at h))
      ]
    ]
  ]

  -- The totals with the start time that a line makes known.
  abbrev pub seen : Json → Totals → Totals
  seen v t = record t {
    observed_start_time =
        if is_point v then earlier t.observed_start_time (time_of p v) else t.observed_start_time;
  }

  -- The contribution of a point, from the values that stand in it.
  abbrev of_point : Json → Contribution
  of_point v =
      let metric = at ("metric" ∷ []) v in
      let value = at ("data" ∷ "value" ∷ []) v in
      contribution_if (is_str "http_reqs" metric) (is_str "http_req_failed" metric)
        (is_str "dropped_iterations" metric) (is_timed metric value) (is_200 v) (is_expected v)
        (number_or_zero (int_of p (or_else value (int (pos 0))))) (known (float_of p value))

  -- The contribution of a line, which adds nothing if it is no point.
  abbrev pub line : Json → Contribution
  line v = if is_point v then of_point v else nothing

  add_data-IsCounted :
      (v : Json) (t t' : Totals)
      → add_data p v t ≡ ok t'
      → IsCounted
          (of_point v)
          (record t { observed_start_time = earlier t.observed_start_time (time_of p v) })
          t'
  unfolding add_data
  add_data-IsCounted v t t' h = on_ok (get "metric" v) _ h λ metric m h1.
      on_ok (get_or "data" (obj end) v) _ h1 λ d dd h2. on_ok (get "value" d) _ h2 λ value vv h3.
        on_ok (get_or "tags" (obj end) d) _ h3 λ tags tt' h4.
          on_ok (get "time" d) _ h4 λ stamp ss h5.
            on_ok (parse_iso_to_utc p stamp) _ h5 λ point_time pp h6.
              let at_value = get_or-at "data" v d "value" [] dd ∙ get-at "value" d value vv in
              let at_time = get_or-at "data" v d "time" [] dd ∙ get-at "time" d stamp ss in
              let in_tags = λ (k : String).
                get_or-at "data" v d "tags" (k ∷ []) dd ∙ get_or-at "tags" d tags k [] tt' in
              rw
                (
                  get-at "metric" v metric m,
                  at_value,
                  at_time,
                  in_tags "status",
                  in_tags "expected_response",
                  pp,
                )
                (add_metric-IsCounted metric value tags _ t' h6)

  -- What a line adds to the totals, from the values that stand in it.
  pub add_point-IsCounted :
      (v : Json) (t t' : Totals) → add_point p v t ≡ ok t' → IsCounted (line v) (seen v t) t'
  unfolding add_point
  add_point-IsCounted v t t' h = on_ok (get "type" v) _ h λ kind k h1.
      elim (Bool-cases (is_str "Point" kind)) [
        | inl e ↦
            let is_one = ap (is_str "Point") (get-at "type" v kind k) ∙ e in
            rw is_one (add_data-IsCounted v t t' (rw e at h1))
        | inr e ↦
            let is_other = ap (is_str "Point") (get-at "type" v kind k) ∙ e in
            rw is_other (
              subst (IsCounted nothing t) (ok-injective {E = Error} _ _ (rw e at h1))
                (nothing-IsCounted t))
      ]

-- ===== src/Latency/Occupancy/Covered.antt =====
-- hack/analyze/latency.py, scenario_occupancy: what a window that is reported as valid rests on.
use predictive_hpa.Prelude.{
  ℕ, suc, ◌-◌, true, false, ◌||◌, ◌≡◌, refl, sym, ap, ◌∙◌, some, none, List, [], ◌∷◌, Result, ok,
  err, ok-injective, any_of, any_of-eq-false, All, All-map, length, get_elem?, get_last?, leb, ◌==◌,
  or_false, arith,
}
use predictive_hpa.Prelude.Inversion.{◌>>=◌, returned, not_raised}
use predictive_hpa.Prelude.Int.{pos}
use predictive_hpa.Float
use predictive_hpa.Float.{Float, finite, of_ℤ}
use predictive_hpa.Json.{File, parsed, missing, unreadable, Json, get, Error, index_error}
use predictive_hpa.Latency.Values.{Clock, Arithmetic, le}
use predictive_hpa.Latency.Occupancy.{
  Value, Problem, other, no_file, no_document, series_count, invalid_count, unordered, not_covered,
  gap, Outcome, valid, invalid, outcome_of, Report, content_of, totals_in, read_values,
  legacy_offset, scenario_occupancy, Totals, not_count, any_pair, bisect_right, slice, longest_gap,
  totals_of, relevant_of, window_totals,
}
use mathlib.Core.Path.{subst}
use mathlib.Core.Option.{some-injective}
use predictive_hpa.Latency.Occupancy.Slices.{
  Neighbours, any_pair-Neighbours, IsCount, not_count-IsCount, last_before, first_after, slice-head,
  slice-le, slice-last,
}
use predictive_hpa.Latency.Occupancy.Sums.{
  pieces, sum_from, first_rise, weighted, add_values-total, add_values-post, add_values-first_up,
}

no_err :
    {P : Type 0} (e : Problem) {t : Totals} → ◌≡◌ {A = Result Problem Totals} (err e) (ok t) → P
no_err e h = cc

module _ (a : Arithmetic) (onset end offered_end : Float) where
  -- The values of the window: whole counts at rising times, of which the first is at the onset or
  -- before it, the last after the end, and none is far from the next. The totals are sums over them.
  pub record IsCovered (values : List Value) (t : Totals) : Type 0 where
    pub counts : All (λ (v : Value). IsCount v.1) values
    pub ordered : Neighbours (λ v w. le w.0 v.0 ≡ false) values
    pub relevant : List Value
    pub part : (i : ℕ) × (j : ℕ) × (relevant ≡ slice i j values)
    pub first : (v : Value) × (get_elem? relevant 0 ≡ some v) × (le v.0 onset ≡ true)
    pub last : (v : Value) × (get_last? relevant ≡ some v) × (le v.0 end ≡ false)
    pub near : Neighbours (λ v w. Float.lt longest_gap (a.minus w.0 v.0) ≡ false) relevant
    pub total :
        t.total
        ≡ sum_from a.plus (weighted a onset end offered_end onset) (of_ℤ (pos 0)) (pieces relevant)
    pub post :
        t.post
        ≡ sum_from a.plus
            (weighted a onset end offered_end offered_end)
            (of_ℤ (pos 0))
            (pieces relevant)
    pub first_up :
        (v : Value) × (get_elem? relevant 0 ≡ some v)
        × (t.first_up ≡ first_rise a onset end offered_end v.1 (pieces relevant))

  -- The totals of values that are not empty.
  totals_of-sums :
      (vs : List Value) (t : Totals)
      → totals_of a onset end offered_end vs ≡ ok t
      → (v : Value) × (ws : List Value) × (vs ≡ v ∷ ws)
        × (t.total
            ≡ sum_from a.plus (weighted a onset end offered_end onset) (of_ℤ (pos 0)) (pieces vs))
        × (t.post
            ≡ sum_from a.plus
                (weighted a onset end offered_end offered_end)
                (of_ℤ (pos 0))
                (pieces vs))
        × (t.first_up ≡ first_rise a onset end offered_end v.1 (pieces vs))
  totals_of-sums [] t h = absurd (no_err (other index_error) h)
  totals_of-sums (v ∷ vs) t h =
      let start : Totals = record {
        total = of_ℤ (pos 0);
        post = of_ℤ (pos 0);
        first_up = none;
        previous = v.1;
      } in
      let same = sym (ok-injective {E = Problem} _ t h) in
      (
        v,
        vs,
        refl,
        ap (λ (u : Totals). u.total) same ∙ add_values-total a onset end offered_end (v ∷ vs) start,
        ap (λ (u : Totals). u.post) same ∙ add_values-post a onset end offered_end (v ∷ vs) start,
        ap (λ (u : Totals). u.first_up) same
            ∙ add_values-first_up a onset end offered_end (v ∷ vs) start refl,
      )

  window_totals-IsCovered :
      (values : List Value) (t : Totals)
      → window_totals a onset end offered_end values ≡ ok t
      → IsCovered values t
  unfolding window_totals relevant_of
  window_totals-IsCovered values t h = do
    let before = bisect_right onset values
    let after = bisect_right end values
    (relevant, found, h1) ← returned (relevant_of a onset end offered_end values) _ h
    (counts, h2) ← not_raised (any_of (λ (v : Value). not_count v.1) values) _ _ found
    (ordered, h3) ← not_raised (any_pair (λ v w. le w.0 v.0) values) _ _ h2
    (covered, h4) ← not_raised (before == 0 || leb (length values) after) _ _ h3
    (near, h5) ←
        not_raised
          (any_pair (λ v w. Float.lt longest_gap (a.minus w.0 v.0))
            (slice (before - 1) (suc after) values))
          _ _ h4
    let same = ok-injective {E = Problem} _ relevant h5
    let (some_before, some_after) = or_false (before == 0) (leb (length values) after) covered
    let (v, ws, e, total, post, up) = totals_of-sums relevant t h1
    let (l, at_l, early) = last_before onset values (before - 1) (ground (arith, some_before))
    let (u, at_u, late) = first_after end values (ground (arith, some_after))
    let head = slice-head (before - 1) (suc after) values v ws (same ∙ e)
    let fits = slice-le (before - 1) after values v ws (same ∙ e)
    record {
      counts =
          All-map values (λ x no. not_count-IsCount x.1 no)
            (any_of-eq-false (λ (x : Value). not_count x.1) values counts);
      ordered = any_pair-Neighbours (λ x y. le y.0 x.0) values ordered;
      relevant = relevant;
      part = (before - 1, suc after, sym same);
      first = (
        v,
        ap (λ (x : List Value). get_elem? x 0) e,
        subst (λ (x : Value). le x.0 onset ≡ true) (some-injective _ _ (sym at_l ∙ head)) early,
      );
      last = (u, ap get_last? (sym same) ∙ slice-last (before - 1) after values u fits at_u, late);
      near =
          subst (Neighbours (λ x y. Float.lt longest_gap (a.minus y.0 x.0) ≡ false)) same
            (any_pair-Neighbours (λ x y. Float.lt longest_gap (a.minus y.0 x.0)) _ near);
      total = total;
      post = post;
      first_up = (v, ap (λ (x : List Value). get_elem? x 0) e, up);
    }

valid-injective : (t u : Totals) → valid t ≡ valid u → t ≡ u
valid-injective t u h = ap totals h
  where
    totals : Outcome → Totals
    totals (valid x) = x
    totals (invalid _) = t

-- Only totals that were computed are reported as valid.
outcome-valid : (r : Result Problem Totals) (t : Totals) → outcome_of r ≡ ok (valid t) → r ≡ ok t
outcome-valid (ok u) t h = ap ok (valid-injective u t (ok-injective {E = Error} _ _ h))
outcome-valid (err (other Error.attribute_error)) t h = cc
outcome-valid (err (other Error.index_error)) t h = cc
outcome-valid (err (other Error.overflow_error)) t h = cc
outcome-valid (err (other Error.type_error)) t h = cc
outcome-valid (err (other Error.key_error)) t h = cc
outcome-valid (err (other Error.value_error)) t h = cc
outcome-valid (err no_file) t h = cc
outcome-valid (err (no_document e)) t h = cc
outcome-valid (err series_count) t h = cc
outcome-valid (err invalid_count) t h = cc
outcome-valid (err unordered) t h = cc
outcome-valid (err not_covered) t h = cc
outcome-valid (err gap) t h = cc

parsed_content : (prom : File) (v : Json) → content_of prom ≡ ok v → prom ≡ parsed v
parsed_content (parsed w) v h = ap parsed (ok-injective {E = Problem} w v h)
parsed_content missing v h = cc
parsed_content (unreadable e) v h = cc

module _ (clock : Clock) (to_float : Json → Result Error Float) (a : Arithmetic) where
  -- The report's window is the 541 s from the onset on, and its totals those of the series in the file.
  pub record IsWindow (prom : File) (onset : Float) (r : Report) (t : Totals) : Type 0 where
    pub document : Json
    pub values : List Value
    pub given : prom ≡ parsed document
    pub read : read_values clock to_float document ≡ ok values
    pub starts : r.start_time ≡ onset
    pub ends : r.end_time ≡ a.plus onset (of_ℤ (pos 541))
    pub covered : IsCovered a onset r.end_time (a.plus onset (of_ℤ (pos 181))) values t

  totals_in-parts :
      (prom : File) (onset stop offered : Float) (t : Totals)
      → totals_in clock to_float a prom onset stop offered ≡ ok t
      → (document : Json) × (values : List Value) × (prom ≡ parsed document)
        × (read_values clock to_float document ≡ ok values)
        × IsCovered a onset stop offered values t
  unfolding totals_in
  totals_in-parts prom onset stop offered t h = do
    (document, c, h1) ← returned (content_of prom) _ h
    (values, read, h2) ← returned (read_values clock to_float document) _ h1
    (
      document,
      values,
      parsed_content prom document c,
      read,
      window_totals-IsCovered a onset stop offered values t h2,
    )

  -- When the window of a report is valid, the file has one series; its counts are whole and its times
  -- rise; the values of the window reach from the onset or before it to after the end, none more than
  -- 15.001 s from the next; the totals are the sums over the seconds that each value holds in the
  -- window and after the load; and the first rise is the first value, from the onset on, above the
  -- one before it.
  pub scenario_occupancy-IsWindow :
      (prom : File) (onset : Float) (metadata : Json) (r : Report) (t : Totals)
      → scenario_occupancy clock to_float a prom onset metadata ≡ ok r
      → r.outcome ≡ valid t
      → IsWindow prom onset r t
  unfolding scenario_occupancy
  scenario_occupancy-IsWindow prom onset metadata r t h e = do
    let stop = a.plus onset (of_ℤ (pos 541))
    let offered = a.plus onset (of_ℤ (pos 181))
    (legacy, _, h1) ← returned (get "load_start_time_unix" metadata) _ h
    (offset, _, h2) ← returned (legacy_offset a onset legacy) _ h1
    (outcome, o, h3) ←
        returned (outcome_of (totals_in clock to_float a prom onset stop offered)) _ h2
    let same = ok-injective {E = Error} _ r h3
    let computed =
        outcome-valid (totals_in clock to_float a prom onset stop offered) t
          (o ∙ ap ok (ap (λ (x : Report). x.outcome) same ∙ e))
    let (document, values, given, read, covered) =
        totals_in-parts prom onset stop offered t computed
    let ends = sym (ap (λ (x : Report). x.end_time) same)
    record {
      document = document;
      values = values;
      given = given;
      read = read;
      starts = sym (ap (λ (x : Report). x.start_time) same);
      ends = ends;
      covered = rw ends covered;
    }

-- ===== src/LiveBaseline/Samples/Ordered.antt =====
-- hack/analyze/live_baseline.py, samples: the readings do not overlap, and there is one for each state
-- that was observed.
use predictive_hpa.Prelude.{
  ℕ, String, Bool, true, false, ◌≡◌, ◌⊎◌, inl, inr, refl, sym, ap, ◌∙◌, Option, none, List, [], ◌∷◌,
  ok, on_ok, on_pass, ok-injective, if◌then◌else◌, length, count_if, All, All-map, Any, Bool-cases,
  or_false, arith,
}
use predictive_hpa.Prelude.Inversion.{◌>>=◌, returned, not_raised}
use predictive_hpa.Float
use predictive_hpa.Float.{Float}
use predictive_hpa.Json.{Json, null, obj, end, get, get_or, item, at, get-at, is_str}
use predictive_hpa.Latency.Values.{Clock, epoch, le}
use predictive_hpa.LiveBaseline.Refusal.{Refusal, caught, caught-eq-ok}
use predictive_hpa.LiveBaseline.Samples.{
  Reading, Field, check_value, response_value, read_interval, read_state, readings, overlaps,
  any_overlap, samples,
}
use mathlib.Core.Path.{subst}

-- The row is one of the observed states.
abbrev pub is_state : Json → Bool
is_state row = is_str "state" (at ("kind" ∷ []) row)

-- Each reading begins no earlier than the one in front of it ends, and ends after it.
abbrev pub AreDisjoint : List Reading → Type 0
AreDisjoint [] = Unit {0}
AreDisjoint (r ∷ []) = Unit {0}
AreDisjoint (l ∷ r ∷ rs) =
    (Float.lt r.start l.finish ≡ false) × (le r.finish l.finish ≡ false) × AreDisjoint (r ∷ rs)

any_overlap-AreDisjoint : (rs : List Reading) → any_overlap rs ≡ false → AreDisjoint rs
unfolding any_overlap
any_overlap-AreDisjoint [] h = tt
any_overlap-AreDisjoint (r ∷ []) h = tt
any_overlap-AreDisjoint (l ∷ r ∷ rs) h =
    let (here, rest) = or_false (overlaps l r) (any_overlap (r ∷ rs)) h in
    let (starts, ends) = or_false (Float.lt r.start l.finish) (le r.finish l.finish) here in
    (starts, ends, any_overlap-AreDisjoint (r ∷ rs) rest)

no_value : (value : Option ℕ) → check_value null ≡ ok value → value ≡ none
no_value value h = sym (ok-injective {E = Refusal} none value h)

module _ (clock : Clock) (resource : String) (field : Field) where
  -- What a reading says of a row: the interval of its request, which does not end before it begins,
  -- and a value only where the state was read with success.
  pub record IsReading (r : Reading) (row : Json) : Type 0 where
    pub state : is_state row ≡ true
    pub interval : read_interval clock row resource ≡ ok (r.start, r.finish)
    pub ordered : Float.lt r.finish r.start ≡ false
    pub read :
        ((is_str "success" (at ("status" ∷ []) row) ≡ true)
          × ((v : Json) × (response_value resource field row ≡ ok v)
              × (check_value v ≡ ok r.value)))
        ⊎ ((is_str "success" (at ("status" ∷ []) row) ≡ false) × (r.value ≡ none))

  read_interval-ordered :
      (row : Json) (t : Float × Float)
      → read_interval clock row resource ≡ ok t
      → Float.lt t.1 t.0 ≡ false
  unfolding read_interval
  read_interval-ordered row t h = do
    (requests, _, h1) ← returned (caught (get_or "requests" (obj end) row)) _ h
    (timing, _, h2) ← returned (caught (get_or resource row requests)) _ h1
    (started, _, h3) ← returned (caught (item "request_started_at" timing)) _ h2
    (start, _, h4) ← returned (caught (epoch clock started)) _ h3
    (finished, _, h5) ← returned (caught (item "request_finished_at" timing)) _ h4
    (finish, _, h6) ← returned (caught (epoch clock finished)) _ h5
    (ordered, h7) ← not_raised (Float.lt finish start) _ _ h6
    subst (λ (x : Float × Float). Float.lt x.1 x.0 ≡ false) (ok-injective {E = Refusal} _ _ h7)
        ordered

  read_state-IsReading :
      (row : Json) (r : Reading)
      → is_state row ≡ true
      → read_state clock row resource field ≡ ok r
      → IsReading r row
  unfolding read_state
  read_state-IsReading row r s h = do
    (t, interval, h1) ← returned (read_interval clock row resource) _ h
    (status, st, h2) ← returned (caught (get "status" row)) _ h1
    (v, found, h3) ←
        returned
          (if is_str "success" status then caught (response_value resource field row) else ok null)
          _ h2
    (value, checked, h4) ← returned (check_value v) _ h3
    let same =
          ap (is_str "success")
            (get-at "status" row status (caught-eq-ok (get "status" row) status st)) in
        subst (λ x. IsReading x row) (ok-injective {E = Refusal} _ _ h4)
          (record {
            state = s;
            interval = interval;
            ordered = read_interval-ordered row t interval;
            read = elim (Bool-cases (is_str "success" status)) [
              | inl e ↦ inl (
                same ∙ e,
                (v, caught-eq-ok (response_value resource field row) v (rw e at found), checked),
              )
              | inr e ↦
                  let nothing = ok-injective {E = Refusal} null v (rw e at found) in
                  inr (
                    same ∙ e,
                    no_value value (subst (λ w. check_value w ≡ ok value) (sym nothing) checked),
                  )
            ];
          })

  -- The readings are those of the observed states, one for each, and they do not overlap.
  pub record AreReadings (rows : List Json) (rs : List Reading) : Type 0 where
    pub counted : length rs ≡ count_if is_state rows
    pub sourced : All (λ r. Any (IsReading r) rows) rs
    pub disjoint : AreDisjoint rs

  readings-sourced :
      (rows : List Json) (rs : List Reading)
      → readings clock rows resource field ≡ ok rs
      → (length rs ≡ count_if is_state rows) × All (λ r. Any (IsReading r) rows) rs
  unfolding readings
  readings-sourced [] rs h =
      subst (λ l. (length l ≡ 0) × All (λ r. Any (IsReading r) []) l)
        (ok-injective {E = Refusal} _ _ h) (refl, tt)
  readings-sourced (row ∷ rows) rs h = on_ok (caught (get "kind" row)) _ h λ kind k h1.
      let same =
        ap (is_str "state") (get-at "kind" row kind (caught-eq-ok (get "kind" row) kind k)) in
      elim (Bool-cases (is_str "state" kind)) [
        | inr e ↦
            let (count, all) = readings-sourced rows rs (rw e at h1) in
            (rw (same ∙ e) (omega (arith, count)), All-map rs (λ r x. inr x) all)
        | inl e ↦ on_ok (read_state clock row resource field) _ (rw e at h1) λ r here h2.
            on_ok (readings clock rows resource field) _ h2 λ rest there h3.
              let (count, all) = readings-sourced rows rest there in
              subst
                (λ l.
                  (length l ≡ count_if is_state (row ∷ rows))
                  × All (λ x. Any (IsReading x) (row ∷ rows)) l)
                (ok-injective {E = Refusal} _ _ h3)
                (
                  rw (same ∙ e) (omega (arith, count)),
                  (
                    inl (read_state-IsReading row r (same ∙ e) here),
                    All-map rest (λ x y. inr y) all,
                  ),
                )
      ]

  -- When samples returns, it has one reading for each observed state, each within the interval of its
  -- request and with a value only where the state was read with success, and the readings neither
  -- overlap nor repeat.
  pub samples-AreReadings :
      (rows : List Json) (rs : List Reading)
      → samples clock rows resource field ≡ ok rs
      → AreReadings rows rs
  unfolding samples
  samples-AreReadings rows rs h = on_ok (readings clock rows resource field) _ h λ found read h1.
      on_pass (any_overlap found) _ _ h1 λ apart h2.
        let (count, all) = readings-sourced rows found read in
        subst (AreReadings rows) (ok-injective {E = Refusal} _ _ h2) (record {
          counted = count;
          sourced = all;
          disjoint = any_overlap-AreDisjoint found apart;
        })

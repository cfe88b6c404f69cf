-- ===== src/Latency/Occupancy/Sums.antt =====
-- hack/analyze/latency.py, scenario_occupancy: the loop's totals as sums over the values' times.
use predictive_hpa.Prelude.{
  ◌&&◌, ◌≡◌, refl, inl, inr, Option, some, none, List, [], ◌∷◌, if◌then◌else◌, Bool-cases,
}
use predictive_hpa.Float
use predictive_hpa.Float.{Float, finite, of_ℤ}
use predictive_hpa.Latency.Values.{Arithmetic, le}
use predictive_hpa.Latency.Occupancy.{Value, Totals, seconds_in, add_value, add_values}

-- The times for which the values hold: each value with the time of the next.
abbrev pub Piece : Type 0
Piece = Value × Float

abbrev pub pieces : List Value → List Piece
pieces [] = []
pieces (v ∷ []) = []
pieces (v ∷ w ∷ vs) = (v, w.0) ∷ pieces (w ∷ vs)

abbrev pub sum_from : (Float → Float → Float) → (Piece → Float) → Float → List Piece → Float
sum_from plus f acc [] = acc
sum_from plus f acc (p ∷ ps) = sum_from plus f (plus acc (f p)) ps

module _ (a : Arithmetic) (onset end offered_end : Float) where
  -- The start of the first value, from the onset on, that is above the one before it.
  abbrev pub first_rise : Float → List Piece → Option Float
  first_rise previous [] = none
  first_rise previous (p ∷ ps) =
      let later = first_rise p.0.1 ps in
      if Float.lt previous p.0.1 && le onset p.0.0 then some (a.minus p.0.0 onset) else later

  abbrev pub weighted : Float → Piece → Float
  weighted after p = a.times p.0.1 (seconds_in a onset end offered_end after p.0.0 p.1)

  pub add_values-total :
      (vs : List Value) (t : Totals)
      → (add_values a onset end offered_end vs t).total
        ≡ sum_from a.plus (weighted onset) t.total (pieces vs)
  unfolding add_values
  add_values-total [] t = refl
  add_values-total (v ∷ []) t = refl
  add_values-total (v ∷ w ∷ vs) t =
      add_values-total (w ∷ vs) (add_value a onset end offered_end v w.0 t)

  pub add_values-post :
      (vs : List Value) (t : Totals)
      → (add_values a onset end offered_end vs t).post
        ≡ sum_from a.plus (weighted offered_end) t.post (pieces vs)
  unfolding add_values
  add_values-post [] t = refl
  add_values-post (v ∷ []) t = refl
  add_values-post (v ∷ w ∷ vs) t =
      add_values-post (w ∷ vs) (add_value a onset end offered_end v w.0 t)

  -- Once a rise is found it stays.
  add_values-found :
      (vs : List Value) (t : Totals) (up : Float)
      → t.first_up ≡ some up
      → (add_values a onset end offered_end vs t).first_up ≡ some up
  unfolding add_values
  add_values-found [] t up h = h
  add_values-found (v ∷ []) t up h = h
  add_values-found (v ∷ w ∷ vs) t up h =
      add_values-found (w ∷ vs) (add_value a onset end offered_end v w.0 t) up
        (elim (Bool-cases (Float.lt t.previous v.1 && le onset v.0)) [
          | inl e ↦ rw (e, h) refl
          | inr e ↦ rw e h
        ])

  pub add_values-first_up :
      (vs : List Value) (t : Totals)
      → t.first_up ≡ none
      → (add_values a onset end offered_end vs t).first_up ≡ first_rise t.previous (pieces vs)
  unfolding add_values
  add_values-first_up [] t h = h
  add_values-first_up (v ∷ []) t h = h
  add_values-first_up (v ∷ w ∷ vs) t h =
      let next = add_value a onset end offered_end v w.0 t in
      elim (Bool-cases (Float.lt t.previous v.1 && le onset v.0)) [
        | inl e ↦ rw e (add_values-found (w ∷ vs) next (a.minus v.0 onset) (rw (e, h) refl))
        | inr e ↦ rw e (add_values-first_up (w ∷ vs) next (rw e h))
      ]

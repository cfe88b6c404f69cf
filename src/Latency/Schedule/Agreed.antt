-- ===== src/Latency/Schedule/Agreed.antt =====
-- hack/analyze/latency.py, scenario_schedule: what a schedule that is returned says of the requests.
use predictive_hpa.Prelude.{
  true, false, ◌≡◌, ◌⊎◌, inl, inr, refl, sym, ap, List, [], ◌∷◌, Result, ok, err, on_ok, on_pass,
  ok-injective, if◌then◌else◌, any_of, any_of-eq-false, length, ◌==◌, All, All-map, Any, Bool-cases,
}
use predictive_hpa.Prelude.Inversion.{◌>>=◌, returned, not_raised}
use predictive_hpa.Prelude.Int.{pos}
use predictive_hpa.Float
use predictive_hpa.Float.{Float, of_ℤ, isfinite}
use predictive_hpa.Float.Order.{lt_irrefl, lt_asymm, not_lt_trans}
use predictive_hpa.Json.{Json, item, eq_float, Error}
use predictive_hpa.Latency.Values.{Clock, Arithmetic, epoch, seconds_of, le, finite_or_error}
use predictive_hpa.Latency.Schedule.{
  Refusal, caught, Schedule, attempts_of, least, add_float, start_of, starts_of, time_of, times_of,
  schedule_at, from_start, from_starts, scenario_schedule,
}
use mathlib.Core.Path.{subst}

caught-eq-ok {ℓ} : {A : Type ℓ} (r : Result Error A) (a : A) → caught r ≡ ok a → r ≡ ok a
caught-eq-ok (ok a) b h = ap ok (ok-injective {E = Refusal} a b h)
caught-eq-ok (err e) b h = cc

finite_or_error-isfinite : (x y : Float) → finite_or_error x ≡ ok y → isfinite y ≡ true
finite_or_error-isfinite x y h = elim (Bool-cases (isfinite x)) [
  | inl e ↦ subst (λ z. isfinite z ≡ true) (ok-injective {E = Error} _ _ (rw e at h)) e
  | inr e ↦ let h' = rw e at h in cc
]

-- The next candidate for the least is finite, and neither it nor the old one is above it.
module _ (best x : Float) (p : isfinite best ≡ true) (q : isfinite x ≡ true) where
  abbrev smaller : Float
  smaller = if Float.lt x best then x else best

  smaller_finite : isfinite smaller ≡ true
  smaller_finite = elim (Bool-cases (Float.lt x best)) [ inl e ↦ rw e q | inr e ↦ rw e p ]

  smaller_le_old : Float.lt best smaller ≡ false
  smaller_le_old = elim (Bool-cases (Float.lt x best)) [
    | inl e ↦ rw e (lt_asymm x best q p e)
    | inr e ↦ rw e (lt_irrefl best)
  ]

  smaller_le_new : Float.lt x smaller ≡ false
  smaller_le_new = elim (Bool-cases (Float.lt x best)) [
    | inl e ↦ rw e (lt_irrefl x)
    | inr e ↦ rw e e
  ]

least_finite :
    (best : Float) (xs : List Float)
    → isfinite best ≡ true
    → All (λ x. isfinite x ≡ true) xs
    → isfinite (least best xs) ≡ true
least_finite best [] p a = p
least_finite best (x ∷ xs) p a =
    least_finite (smaller best x p a.0) xs (smaller_finite best x p a.0) a.1

-- Nothing is below the least.
least_le :
    (best : Float) (xs : List Float)
    → isfinite best ≡ true
    → All (λ x. isfinite x ≡ true) xs
    → (Float.lt best (least best xs) ≡ false) × All (λ x. Float.lt x (least best xs) ≡ false) xs
least_le best [] p a = (lt_irrefl best, tt)
least_le best (x ∷ xs) p a =
    let next = smaller best x p a.0 in
    let f = smaller_finite best x p a.0 in
    let (below, rest) = least_le next xs f a.1 in
    let g = least_finite next xs f a.1 in
    (
      not_lt_trans best next (least next xs) p f g (smaller_le_old best x p a.0) below,
      (not_lt_trans x next (least next xs) a.0 f g (smaller_le_new best x p a.0) below, rest),
    )

-- The set has the number, or one that equals it.
abbrev pub Holds : List Float → Float → Type 0
Holds xs x = Any (λ y. (y ≡ x) ⊎ (eq_float y x ≡ true)) xs

found-Holds : (x : Float) (xs : List Float) → any_of (λ y. eq_float y x) xs ≡ true → Holds xs x
found-Holds x [] h = cc
found-Holds x (y ∷ ys) h = elim (Bool-cases (eq_float y x)) [
  | inl e ↦ inl (inr e)
  | inr e ↦ inr (found-Holds x ys (rw e at h))
]

add_float-Holds_new : (x : Float) (xs : List Float) → Holds (add_float x xs) x
add_float-Holds_new x xs = elim (Bool-cases (any_of (λ y. eq_float y x) xs)) [
  | inl e ↦ rw e (found-Holds x xs e)
  | inr e ↦ rw e (inl (inl refl))
]

add_float-Holds : (x y : Float) (xs : List Float) → Holds xs y → Holds (add_float x xs) y
add_float-Holds x y xs h = elim (Bool-cases (any_of (λ z. eq_float z x) xs)) [
  | inl e ↦ rw e h
  | inr e ↦ rw e (inr h)
]

module _ (clock : Clock) where
  -- The times of the requests are finite.
  times_of-isfinite :
      (attempts : List Json) (times : List Float)
      → times_of clock attempts ≡ ok times
      → All (λ x. isfinite x ≡ true) times
  unfolding times_of time_of epoch
  times_of-isfinite [] times h = subst (All _) (ok-injective {E = Error} _ _ h) tt
  times_of-isfinite (t ∷ ts) times h = do
    (x, here, h1) ← returned (time_of clock t) _ h
    (rest, there, h2) ← returned (times_of clock ts) _ h1
    (v, read, h3) ← returned (item "time" t) _ here
    (y, made, h4) ← returned (seconds_of clock v) _ h3
    subst (All (λ z. isfinite z ≡ true)) (ok-injective {E = Error} _ _ h2)
        (finite_or_error-isfinite y x h4, times_of-isfinite ts rest there)

  -- What holds of all the times holds of the time of each request.
  times_of-All :
      (P : Float → Type 0) (attempts : List Json) (times : List Float)
      → times_of clock attempts ≡ ok times
      → All P times
      → All (λ t. (x : Float) × (time_of clock t ≡ ok x) × P x) attempts
  unfolding times_of
  times_of-All P [] times h a = tt
  times_of-All P (t ∷ ts) times h a = on_ok (time_of clock t) _ h λ x here h1.
      on_ok (times_of clock ts) _ h1 λ rest there h2.
        let b = subst (All P) (sym (ok-injective {E = Error} _ _ h2)) a in
        ((x, here, b.0), times_of-All P ts rest there b.1)

only : (start x : Float) → Holds (start ∷ []) x → (start ≡ x) ⊎ (eq_float start x ≡ true)
only start x (inl h) = h
only start x (inr h) = elim h [ ]

module _ (clock : Clock) (to_float : Json → Result Error Float) (thousandth : Float → Float) where
  starts_of-Holds :
      (attempts : List Json) (xs : List Float)
      → starts_of clock to_float thousandth attempts ≡ ok xs
      → All (λ t. (x : Float) × (start_of clock to_float thousandth t ≡ ok x) × Holds xs x) attempts
  unfolding starts_of
  starts_of-Holds [] xs h = tt
  starts_of-Holds (t ∷ ts) xs h = on_ok (start_of clock to_float thousandth t) _ h λ x here h1.
      on_ok (starts_of clock to_float thousandth ts) _ h1 λ rest there h2.
        subst
          (λ l.
            All (λ t. (y : Float) × (start_of clock to_float thousandth t ≡ ok y) × Holds l y)
              (t ∷ ts))
          (ok-injective {E = Error} _ _ h2)
          (
            (x, here, add_float-Holds_new x rest),
            All-map ts (λ t (y, e, k). (y, e, add_float-Holds x y rest k))
                (starts_of-Holds ts rest there),
          )

  module _ (a : Arithmetic) where
    -- All requests state one start, or equal ones, which is positive; the onset is half a minute
    -- after it, and no request precedes the onset or the first one reported.
    pub record IsScheduled (rows : List Json) (s : Schedule) : Type 0 where
      pub attempts : List Json
      pub selected : attempts_of rows ≡ ok attempts
      pub some_attempt : (length attempts == 0) ≡ false
      pub start : Float
      pub positive : le start (of_ℤ (pos 0)) ≡ false
      pub agreed :
          All
            (λ t.
              (x : Float) × (start_of clock to_float thousandth t ≡ ok x)
              × ((start ≡ x) ⊎ (eq_float start x ≡ true)))
            attempts
      pub onset : s ≡ schedule_at a (a.plus start (of_ℤ (pos 30))) s.first_request_attempt
      pub attempted :
          All
            (λ t.
              (x : Float) × (time_of clock t ≡ ok x) × (Float.lt x s.first_request_attempt ≡ false))
            attempts
      pub not_before : Float.lt s.first_request_attempt s.load_onset ≡ false

    from_start-IsScheduled :
        (rows attempts : List Json) (start : Float) (times : List Float) (s : Schedule)
        → attempts_of rows ≡ ok attempts
        → (length attempts == 0) ≡ false
        → le start (of_ℤ (pos 0)) ≡ false
        → All
            (λ t.
              (x : Float) × (start_of clock to_float thousandth t ≡ ok x) × Holds (start ∷ []) x)
            attempts
        → times_of clock attempts ≡ ok times
        → from_start a start times ≡ ok s
        → IsScheduled rows s
    unfolding from_start
    from_start-IsScheduled rows attempts start [] s sel n p agree made h = cc
    from_start-IsScheduled rows attempts start (time ∷ times) s sel n p agree made h =
        let finite = times_of-isfinite clock attempts (time ∷ times) made in
        let lowest = least_le time times finite.0 finite.1 in
        on_pass (Float.lt (least time times) (a.plus start (of_ℤ (pos 30)))) _ _ h λ after h'.
          subst (IsScheduled rows) (ok-injective {E = Refusal} _ _ h') (record {
            attempts = attempts;
            selected = sel;
            some_attempt = n;
            start = start;
            positive = p;
            agreed = All-map attempts (λ t (x, e, k). (x, e, only start x k)) agree;
            onset = refl;
            attempted =
                times_of-All clock (λ x. Float.lt x (least time times) ≡ false) attempts
                  (time ∷ times) made lowest;
            not_before = after;
          })

    from_starts-IsScheduled :
        (rows attempts : List Json) (starts : List Float) (s : Schedule)
        → attempts_of rows ≡ ok attempts
        → (length attempts == 0) ≡ false
        → starts_of clock to_float thousandth attempts ≡ ok starts
        → any_of (λ x. le x (of_ℤ (pos 0))) starts ≡ false
        → from_starts clock to_float thousandth a attempts starts ≡ ok s
        → IsScheduled rows s
    unfolding from_starts
    from_starts-IsScheduled rows attempts [] s sel n made p h = cc
    from_starts-IsScheduled rows attempts (x ∷ y ∷ ys) s sel n made p h = cc
    from_starts-IsScheduled rows attempts (start ∷ []) s sel n made p h =
        on_ok (caught (times_of clock attempts)) _ h λ times t h'.
          from_start-IsScheduled rows attempts start times s sel n
            (any_of-eq-false (λ x. le x (of_ℤ (pos 0))) (start ∷ []) p).0
            (starts_of-Holds attempts (start ∷ []) made)
            (caught-eq-ok (times_of clock attempts) times t) h'

    -- When a schedule is returned, its file has requests, all state one positive start or equal ones,
    -- the onset is half a minute after the start and the other boundaries follow from it, the first
    -- attempt reported is not after any request, and it does not precede the onset.
    pub scenario_schedule-IsScheduled :
        (rows : List Json) (s : Schedule)
        → scenario_schedule clock to_float thousandth a rows ≡ ok s
        → IsScheduled rows s
    unfolding scenario_schedule
    scenario_schedule-IsScheduled rows s h = do
      (attempts, sel, h1) ← returned (caught (attempts_of rows)) _ h
      (n, h2) ← not_raised (length attempts == 0) _ _ h1
      (starts, made, h3) ← returned (caught (starts_of clock to_float thousandth attempts)) _ h2
      (p, h4) ← not_raised (any_of (λ x. le x (of_ℤ (pos 0))) starts) _ _ h3
      from_starts-IsScheduled rows attempts starts s (caught-eq-ok (attempts_of rows) attempts sel)
          n (caught-eq-ok (starts_of clock to_float thousandth attempts) starts made) p h4

-- ===== src/Cadence/Sampling/Unseen.antt =====
-- Which instants of the window `observer_sampling` (hack/analyze/cadence.py) lists as unseen.
use mathlib.Core.Path.{subst}
use mathlib.Core.Option.{some-injective}
use predictive_hpa.Prelude.{
  ℕ, ◌+◌, ◌-◌, ◌*◌, ◌≤◌, ◌<◌, ◌≡◌, ◌↔◌, ◌⊎◌, inl, inr, refl, arith, Bool, true, false, Option, none,
  some, sym, ◌∙◌, List, [], ◌∷◌, min, max, ltb, ltb→lt, Any, ok, ok-injective,
}
use predictive_hpa.Prelude.Inversion.{◌>>=◌, returned}
use predictive_hpa.Cadence.Queries.{Row, Refused, value}
use predictive_hpa.Cadence.Sampling.{
  Span, span, append_if, later_gaps, gaps, unknown, Sampling, observer_sampling,
}

-- The instant lies in the span.
abbrev pub In : ℕ → Span → Type 0
In t s = (s.start ≤ t) × (t < s.finish)

-- No row observes the instant: it lies after the last finish, or between a finish and the next start
-- that are further apart than the gap.
abbrev pub IsAfter : ℕ → ℕ → List Row → ℕ → Type 0
IsAfter gap finish [] t = finish ≤ t
IsAfter gap finish (row ∷ rows) t =
    (s : ℕ) × (f : ℕ) × (row.started_at ≡ some s)
    × (row.finished_at ≡ some f)
    × (((finish + gap < s) × (finish ≤ t) × (t < s)) ⊎ IsAfter gap f rows t)

-- Or it lies before the first start.
abbrev pub IsUnseen : ℕ → Row → List Row → ℕ → Type 0
IsUnseen gap row rows t =
    (s : ℕ) × (f : ℕ) × (row.started_at ≡ some s)
    × (row.finished_at ≡ some f)
    × ((t < s) ⊎ IsAfter gap f rows t)

append_if-Any :
    (P : Span → Type 0) (b : Bool) (s : Span) (ss : List Span)
    → Any P (append_if b s ss) ↔ (((b ≡ true) × P s) ⊎ Any P ss)
unfolding append_if
append_if-Any P true s ss = (
  λ h. elim h [ inl a ↦ inl (refl, a) | inr r ↦ inr r ],
  λ h. elim h [ inl (e, a) ↦ inl a | inr r ↦ inr r ],
)
append_if-Any P false s ss = (λ h. inr h, λ h. elim h [ inl (e, a) ↦ cc | inr r ↦ r ])

value_of : (o : Option ℕ) (n : ℕ) → value o ≡ ok n → o ≡ some n
value_of none n h = cc
value_of (some x) n h = rw (ok-injective {E = Refused} x n h) refl

same_value : (o : Option ℕ) (a b : ℕ) → o ≡ some a → o ≡ some b → a ≡ b
same_value o a b h k = some-injective _ _ (sym h ∙ k)

lt→ltb : (a b : ℕ) → a < b → ltb a b ≡ true
lt→ltb a b h = ground arith

module _ (onset end t : ℕ) (from : onset ≤ t) (before : t < end) where
  -- The parts in the window list the instants of it that lie in the spans.
  unknown-Any : (ss : List Span) → Any (In (t - onset)) (unknown onset end ss) ↔ Any (In t) ss
  unfolding unknown
  unknown-Any [] = (λ h. h, λ h. h)
  unknown-Any (s ∷ ss) =
      let step =
        append_if-Any (In (t - onset)) (ltb (max s.start onset) (min s.finish end))
          (span (max s.start onset - onset) (min s.finish end - onset)) (unknown onset end ss) in
      let rest = unknown-Any ss in
      (
        λ h. elim (step.0 h) [
          | inl (e, a) ↦
              let inside = ltb→lt (max s.start onset) (min s.finish end) e in
              inl (omega (arith, a.0, a.1, inside), omega (arith, a.0, a.1, inside))
          | inr r ↦ inr (rest.0 r)
        ],
        λ h. elim h [
          | inl a ↦
              let inside : max s.start onset < min s.finish end = omega (arith, a.0, a.1) in
              step.1 (inl (lt→ltb _ _ inside, (omega (arith, a.0, a.1), omega (arith, a.0, a.1))))
          | inr r ↦ step.1 (inr (rest.1 r))
        ],
      )

  later_gaps-Any :
      (gap finish : ℕ) (rows : List Row) (ss : List Span)
      → later_gaps gap end finish rows ≡ ok ss
      → Any (In t) ss ↔ IsAfter gap finish rows t
  unfolding later_gaps
  later_gaps-Any gap finish [] ss h =
      let step = append_if-Any (In t) (ltb finish end) (span finish end) [] in
      subst (λ l. Any (In t) l ↔ IsAfter gap finish [] t) (ok-injective {E = Refused} _ _ h)
        (
          λ h. elim (step.0 h) [ inl (e, a) ↦ a.0 | inr r ↦ elim r [ ] ],
          λ h. step.1 (inl (lt→ltb finish end (omega (arith, h)), (h, before))),
        )
  later_gaps-Any gap finish (row ∷ rows) ss h = do
    (s, e1, h1) ← returned (value row.started_at) _ h
    (f, e2, h2) ← returned (value row.finished_at) _ h1
    (later, e3, h3) ← returned (later_gaps gap end f rows) _ h2
    let rest = later_gaps-Any gap f rows later e3
    let at_start = value_of row.started_at s e1
    let at_finish = value_of row.finished_at f e2
    let step = append_if-Any (In t) (ltb (finish + gap) s) (span finish s) later
    subst (λ l. Any (In t) l ↔ IsAfter gap finish (row ∷ rows) t)
        (ok-injective {E = Refused} _ _ h3)
        (
          λ h. (
            s,
            f,
            at_start,
            at_finish,
            elim (step.0 h) [
              | inl (e, a) ↦ inl (ltb→lt (finish + gap) s e, a.0, a.1)
              | inr r ↦ inr (rest.0 r)
            ],
          ),
          λ (s', f', es, ef, k).
              let same_start : s' ≡ s = same_value row.started_at s' s es at_start in
              let same_finish : f' ≡ f = same_value row.finished_at f' f ef at_finish in
              elim k [
                | inl (wide, a, b) ↦ step.1 (
                    inl (
                      lt→ltb (finish + gap) s (omega (arith, wide, same_start)),
                      (a, omega (arith, b, same_start)),
                    ))
                | inr r ↦ step.1 (inr (rest.1 (subst (λ x. IsAfter gap x rows t) same_finish r)))
              ],
        )

  gaps-Any :
      (gap : ℕ) (row : Row) (rows : List Row) (ss : List Span)
      → gaps gap onset end row rows ≡ ok ss
      → Any (In t) ss ↔ IsUnseen gap row rows t
  unfolding gaps
  gaps-Any gap row rows ss h = do
    (s, e1, h1) ← returned (value row.started_at) _ h
    (f, e2, h2) ← returned (value row.finished_at) _ h1
    (later, e3, h3) ← returned (later_gaps gap end f rows) _ h2
    let rest = later_gaps-Any gap f rows later e3
    let at_start = value_of row.started_at s e1
    let at_finish = value_of row.finished_at f e2
    let step = append_if-Any (In t) (ltb onset s) (span onset s) later
    subst (λ l. Any (In t) l ↔ IsUnseen gap row rows t) (ok-injective {E = Refused} _ _ h3)
        (
          λ h. (
            s,
            f,
            at_start,
            at_finish,
            elim (step.0 h) [ inl (e, a) ↦ inl a.1 | inr r ↦ inr (rest.0 r) ],
          ),
          λ (s', f', es, ef, k).
              let same_start : s' ≡ s = same_value row.started_at s' s es at_start in
              let same_finish : f' ≡ f = same_value row.finished_at f' f ef at_finish in
              elim k [
                | inl b ↦ step.1 (
                    inl (
                      lt→ltb onset s (omega (arith, b, same_start)),
                      (from, omega (arith, b, same_start)),
                    ))
                | inr r ↦ step.1 (inr (rest.1 (subst (λ x. IsAfter gap x rows t) same_finish r)))
              ],
        )

-- An instant of the window lies in a listed interval exactly when no row observes it: it is before
-- the first start, after the last finish, or between a finish and the next start that are further
-- apart than two intervals of the observer.
pub observer_sampling-iff_IsUnseen :
    (row : Row) (rows : List Row) (onset end interval t : ℕ) (s : Sampling)
    → observer_sampling row rows onset end interval ≡ ok s
    → onset ≤ t
    → t < end
    → Any (In (t - onset)) s.unknown_intervals ↔ IsUnseen (2 * interval) row rows t
unfolding observer_sampling
observer_sampling-iff_IsUnseen row rows onset end interval t s h from before = do
  (intervals, e, h') ← returned (gaps (2 * interval) onset end row rows) _ h
  let listed = unknown-Any onset end t from before intervals
  let found = gaps-Any onset end t from before (2 * interval) row rows intervals e
  subst
      (λ (s : Sampling).
        Any (In (t - onset)) s.unknown_intervals ↔ IsUnseen (2 * interval) row rows t)
      (ok-injective {E = Refused} _ _ h') (λ h. found.0 (listed.0 h), λ h. listed.1 (found.1 h))

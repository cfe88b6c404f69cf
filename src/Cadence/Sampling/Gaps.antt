-- ===== src/Cadence/Sampling/Gaps.antt =====
-- Where the unseen intervals of `observer_sampling` (hack/analyze/cadence.py) lie.
use mathlib.Core.Path.{subst}
use mathlib.Core.Option.{some-injective}
use predictive_hpa.Prelude.{
  ℕ, ◌+◌, ◌-◌, ◌*◌, ◌≤◌, ◌<◌, ◌≡◌, ◌↔◌, refl, arith, Bool, true, false, Option, none, some, sym,
  ◌∙◌, List, [], ◌∷◌, map, sum, min, max, ltb, ltb→lt, Bool-cases, inl, inr, ok, on_ok,
  ok-injective,
}
use predictive_hpa.Prelude.Inversion.{◌>>=◌, returned}
use predictive_hpa.Cadence.Queries.{Row, Refused, value}
use predictive_hpa.Cadence.Sampling.{
  Span, span, append_if, later_gaps, gaps, unknown, Sampling, observer_sampling, is_empty,
}

-- Nonempty spans that follow one another between two bounds.
abbrev pub Chain : ℕ → ℕ → List Span → Type 0
Chain low high [] = Unit
Chain low high (s ∷ ss) =
    (low ≤ s.start) × (s.start < s.finish) × (s.finish ≤ high) × Chain s.finish high ss

Chain-lower :
    (low low' high : ℕ) (ss : List Span) → low' ≤ low → Chain low high ss → Chain low' high ss
Chain-lower low low' high [] h c = tt
Chain-lower low low' high (s ∷ ss) h (a, b, d, c) = (omega arith, b, d, c)

-- Rows that follow one another from a time on.
abbrev pub InSequence : ℕ → List Row → Type 0
InSequence t [] = Unit
InSequence t (row ∷ rows) =
    (s : ℕ) × (f : ℕ) × (row.started_at ≡ some s)
    × (row.finished_at ≡ some f)
    × (t ≤ s)
    × (s ≤ f)
    × InSequence f rows

-- Spans that follow one another, without an upper bound.
abbrev Follows : ℕ → List Span → Type 0
Follows low [] = Unit
Follows low (s ∷ ss) = (low ≤ s.start) × (s.start ≤ s.finish) × Follows s.finish ss

Follows-lower : (low low' : ℕ) (ss : List Span) → low' ≤ low → Follows low ss → Follows low' ss
Follows-lower low low' [] h c = tt
Follows-lower low low' (s ∷ ss) h (a, b, c) = (omega arith, b, c)

append_if-Follows :
    (b : Bool) (low s f : ℕ) (ss : List Span)
    → low ≤ s
    → s ≤ f
    → Follows f ss
    → Follows low (append_if b (span s f) ss)
unfolding append_if
append_if-Follows true low s f ss a b c = (a, b, c)
append_if-Follows false low s f ss a b c = Follows-lower f low ss (omega arith) c

known_value : (o : Option ℕ) {a b : ℕ} → value o ≡ ok a → o ≡ some b → b ≡ a
known_value none h e = cc
known_value (some x) h e = sym (some-injective _ _ e) ∙ ok-injective {E = Refused} _ _ h

-- The interval after the last row, if there is one.
last-Follows : (t end : ℕ) → Follows t (append_if (ltb t end) (span t end) [])
unfolding append_if
last-Follows t end = elim (Bool-cases (ltb t end)) [
  | inl h ↦ let below = ltb→lt t end h in rw h (omega arith, omega arith, tt)
  | inr h ↦ rw h tt
]

later_gaps-Follows :
    (gap end t : ℕ) (rows : List Row) {ss : List Span}
    → InSequence t rows
    → later_gaps gap end t rows ≡ ok ss
    → Follows t ss
unfolding later_gaps
later_gaps-Follows gap end t [] q h =
    subst (Follows t) (ok-injective {E = Refused} _ _ h) (last-Follows t end)
later_gaps-Follows gap end t (row ∷ rows) (s, f, es, ef, a, b, q) h =
    on_ok (value row.started_at) _ h λ s' e1 h1. on_ok (value row.finished_at) _ h1 λ f' e2 h2.
      on_ok (later_gaps gap end f' rows) _ h2 λ rest e3 h3.
        let same_start : s ≡ s' = known_value row.started_at e1 es in
        let same_finish : f ≡ f' = known_value row.finished_at e2 ef in
        let q' = subst (λ x. InSequence x rows) same_finish q in
        let rest' = later_gaps-Follows gap end f' rows q' e3 in
        subst (Follows t) (ok-injective {E = Refused} _ _ h3) (
          append_if-Follows (ltb (t + gap) s') t t s' rest (omega arith) (omega (arith, same_start))
            (Follows-lower f' s' rest (omega (arith, same_start, same_finish)) rest'))

-- The parts in the window.
unknown-Chain :
    (onset end low : ℕ) (ss : List Span)
    → Follows low ss
    → Chain (max low onset - onset) (end - onset) (unknown onset end ss)
unfolding unknown append_if
unknown-Chain onset end low [] h = tt
unknown-Chain onset end low (s ∷ ss) (a, b, c) =
    let rest = unknown-Chain onset end s.finish ss c in
    elim (Bool-cases (ltb (max s.start onset) (min s.finish end))) [
      | inl seen ↦
          let inside = ltb→lt (max s.start onset) (min s.finish end) seen in
          rw seen (
            omega arith,
            omega arith,
            omega arith,
            Chain-lower (max s.finish onset - onset) (min s.finish end - onset) (end - onset)
                (unknown onset end ss) (omega arith) rest,
          )
      | inr outside ↦ rw outside (
          Chain-lower (max s.finish onset - onset) (max low onset - onset) (end - onset)
            (unknown onset end ss) (omega arith) rest)
    ]

Chain-sum :
    (low high : ℕ) (ss : List Span)
    → low ≤ high
    → Chain low high ss
    → low + sum (map (λ s. s.finish - s.start) ss) ≤ high
Chain-sum low high [] h c = omega arith
Chain-sum low high (s ∷ ss) h (a, b, d, c) = omega (arith, Chain-sum s.finish high ss d c)

is_empty_iff :
    (low high : ℕ) (ss : List Span)
    → Chain low high ss
    → (is_empty ss ≡ true) ↔ (sum (map (λ s. s.finish - s.start) ss) ≡ 0)
is_empty_iff low high [] c = (λ _. refl, λ _. refl)
is_empty_iff low high (s ∷ ss) (a, b, d, c) = (λ h. cc, λ h. absurd (omega (arith, h, b)))

-- The first row leaves an interval from onset, if it starts after that.
first-Chain :
    (onset end start finish : ℕ) (ss : List Span)
    → start ≤ finish
    → Follows finish ss
    → Chain 0 (end - onset) (unknown onset end (append_if (ltb onset start) (span onset start) ss))
unfolding append_if
first-Chain onset end start finish ss h c = elim (Bool-cases (ltb onset start)) [
  | inl late ↦
      let after = ltb→lt onset start late in
      rw late (
        Chain-lower (max onset onset - onset) 0 (end - onset) _ (omega arith) (
          unknown-Chain onset end onset (span onset start ∷ ss)
            (omega arith, omega arith, Follows-lower finish start ss h c)))
  | inr early ↦ rw early (
      Chain-lower (max finish onset - onset) 0 (end - onset) _ (omega arith)
        (unknown-Chain onset end finish ss c))
]

-- When the rows of the observer follow one another, the unseen intervals are nonempty, follow one
-- another and lie in the window, so that the unseen time is at most the window; and the coverage is
-- complete exactly when that time is 0.
pub observer_sampling-Chain :
    (row : Row) (rows : List Row) (onset end interval : ℕ) (s : Sampling)
    → InSequence 0 (row ∷ rows)
    → observer_sampling row rows onset end interval ≡ ok s
    → Chain 0 (end - onset) s.unknown_intervals
      × (s.unknown_time ≤ end - onset)
      × ((s.coverage_complete ≡ true) ↔ (s.unknown_time ≡ 0))
unfolding observer_sampling gaps
observer_sampling-Chain row rows onset end interval s (st, f, es, ef, a, b, q) h = do
  (intervals, e, h') ← returned (gaps (2 * interval) onset end row rows) _ h
  (st', e1, h1) ← returned (value row.started_at) _ e
  (f', e2, h2) ← returned (value row.finished_at) _ h1
  (rest, e3, h3) ← returned (later_gaps (2 * interval) end f' rows) _ h2
  let same_start : st ≡ st' = known_value row.started_at e1 es in
      let same_finish : f ≡ f' = known_value row.finished_at e2 ef in
      let follows =
        later_gaps-Follows (2 * interval) end f' rows (subst (λ x. InSequence x rows) same_finish q)
          e3 in
      let chain =
        subst (λ x. Chain 0 (end - onset) (unknown onset end x)) (ok-injective {E = Refused} _ _ h3)
          (first-Chain onset end st' f' rest (omega (arith, same_start, same_finish)) follows) in
      subst
        (λ (s : Sampling).
          Chain 0 (end - onset) s.unknown_intervals
          × (s.unknown_time ≤ end - onset)
          × ((s.coverage_complete ≡ true) ↔ (s.unknown_time ≡ 0)))
        (ok-injective {E = Refused} _ _ h')
        (
          chain,
          omega
              (arith, Chain-sum 0 (end - onset) (unknown onset end intervals) (omega arith) chain),
          is_empty_iff 0 (end - onset) (unknown onset end intervals) chain,
        )

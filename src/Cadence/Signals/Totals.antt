-- ===== src/Cadence/Signals/Totals.antt =====
-- What the totals of `signal_totals` (hack/analyze/cadence.py) count.
use mathlib.Core.Path.{subst}
use predictive_hpa.Prelude.{
  ℕ, ◌+◌, ◌≤◌, ◌≡◌, refl, arith, Bool, true, false, ◌&&◌, Option, none, List, [], ◌∷◌, ◌++◌,
  if◌then◌else◌, ok, on_ok, ok-injective, length, length-append, count_if, Bool-cases, inl, inr,
}
use predictive_hpa.Cadence.Signals.{
  Row, Refused, Classification, rejected, strictly_advanced, repeated_or_partial,
  initial_or_changed_membership, same_class, Counts, zeros, count_up, Observation, Signals, observe,
  observe_all, timestamp, Sources, in_window, signal_totals,
}

-- The observations of a class, and those of them that finish inside the window.
abbrev pub of_class : Classification → Observation → Bool
of_class k o = same_class k o.classification

abbrev pub inside : ℕ → ℕ → Classification → Observation → Bool
inside onset end k o = same_class k o.classification && in_window onset end o.finished

-- Counts that count the observations that pass a test, by class.
abbrev pub Counted : (Classification → Observation → Bool) → List Observation → Counts → Type 0
Counted p os c =
    (c.rejected ≡ count_if (p rejected) os)
    × (c.advanced ≡ count_if (p strictly_advanced) os)
    × (c.repeated ≡ count_if (p repeated_or_partial) os)
    × (c.initial ≡ count_if (p initial_or_changed_membership) os)
    × (c.accepted ≡ c.advanced + c.repeated + c.initial)

count_if-snoc :
    (p : Observation → Bool) (os : List Observation) (o : Observation)
    → count_if p (os ++ o ∷ []) ≡ count_if p os + (if p o then 1 else 0)
count_if-snoc p [] o = ground arith
count_if-snoc p (x ∷ os) o = omega (arith, count_if-snoc p os o)

module _ (p : Observation → Bool) (os : List Observation) (o : Observation) (n : ℕ)
    (h : n ≡ count_if p os) where
  one_more : p o ≡ true → n + 1 ≡ count_if p (os ++ o ∷ [])
  one_more e =
      let one : ◌≡◌ {A = ℕ} (if p o then 1 else 0) 1 = rw e refl in
      omega (arith, one, h, count_if-snoc p os o)

  no_more : p o ≡ false → n ≡ count_if p (os ++ o ∷ [])
  no_more e =
      let none_added : ◌≡◌ {A = ℕ} (if p o then 1 else 0) 0 = rw e refl in
      omega (arith, none_added, h, count_if-snoc p os o)

module _ (p : Classification → Observation → Bool) (os : List Observation) (o : Observation) where
  -- An observation that no test passes, and one of the class k that only its test passes.
  Counted-skip :
      (c : Counts)
      → ((k : Classification) → p k o ≡ false)
      → Counted p os c
      → Counted p (os ++ o ∷ []) c
  Counted-skip c q (r, a, e, i, t) = (
    no_more (p rejected) os o c.rejected r (q rejected),
    no_more (p strictly_advanced) os o c.advanced a (q strictly_advanced),
    no_more (p repeated_or_partial) os o c.repeated e (q repeated_or_partial),
    no_more (p initial_or_changed_membership) os o c.initial i (q initial_or_changed_membership),
    t,
  )

  count_up-Counted :
      (k : Classification) (c : Counts)
      → ((l : Classification) → p l o ≡ same_class l k)
      → Counted p os c
      → Counted p (os ++ o ∷ []) (count_up k c)
  unfolding count_up
  count_up-Counted rejected c q (r, a, e, i, t) = (
    one_more (p rejected) os o c.rejected r (q rejected),
    no_more (p strictly_advanced) os o c.advanced a (q strictly_advanced),
    no_more (p repeated_or_partial) os o c.repeated e (q repeated_or_partial),
    no_more (p initial_or_changed_membership) os o c.initial i (q initial_or_changed_membership),
    t,
  )
  count_up-Counted strictly_advanced c q (r, a, e, i, t) = (
    no_more (p rejected) os o c.rejected r (q rejected),
    one_more (p strictly_advanced) os o c.advanced a (q strictly_advanced),
    no_more (p repeated_or_partial) os o c.repeated e (q repeated_or_partial),
    no_more (p initial_or_changed_membership) os o c.initial i (q initial_or_changed_membership),
    omega (arith, t),
  )
  count_up-Counted repeated_or_partial c q (r, a, e, i, t) = (
    no_more (p rejected) os o c.rejected r (q rejected),
    no_more (p strictly_advanced) os o c.advanced a (q strictly_advanced),
    one_more (p repeated_or_partial) os o c.repeated e (q repeated_or_partial),
    no_more (p initial_or_changed_membership) os o c.initial i (q initial_or_changed_membership),
    omega (arith, t),
  )
  count_up-Counted initial_or_changed_membership c q (r, a, e, i, t) = (
    no_more (p rejected) os o c.rejected r (q rejected),
    no_more (p strictly_advanced) os o c.advanced a (q strictly_advanced),
    no_more (p repeated_or_partial) os o c.repeated e (q repeated_or_partial),
    one_more (p initial_or_changed_membership) os o c.initial i (q initial_or_changed_membership),
    omega (arith, t),
  )

-- The totals of some rows: the entries of the observations count up to them.
abbrev pub Totals : ℕ → ℕ → Signals → Type 0
Totals onset end s =
    Counted of_class s.observations s.entire × Counted (inside onset end) s.observations s.window

module _ (onset end : ℕ) where
  window_step :
      (os : List Observation) (t : ℕ) (k : Classification) (c : Counts)
      → Counted (inside onset end) os c
      → Counted
          (inside onset end)
          (os ++ record { finished = t; classification = k } ∷ [])
          (if in_window onset end t then count_up k c else c)
  window_step os t k c h =
      let o : Observation = record { finished = t; classification = k } in
      elim (Bool-cases (in_window onset end t)) [
        | inl within ↦
            rw within
              (count_up-Counted (inside onset end) os o k c (λ l. rw within (ground arith)) h)
        | inr beyond ↦
            rw beyond (Counted-skip (inside onset end) os o c (λ l. rw beyond (ground arith)) h)
      ]

  observe_all-Totals :
      (previous : Option Sources) (acc : Signals) (rows : List Row) {s : Signals}
      → observe_all onset end previous acc rows ≡ ok s
      → Totals onset end acc
      → Totals onset end s × (length s.observations ≡ length acc.observations + length rows)
  unfolding observe_all
  observe_all-Totals previous acc [] h t =
      subst
        (λ (s : Signals).
          Totals onset end s × (length s.observations ≡ length acc.observations + 0))
        (ok-injective {E = Refused} _ _ h) (t, omega arith)
  observe_all-Totals previous acc (row ∷ rows) h (e, w) =
      on_ok (timestamp row.finished_at) _ h λ finish e1 h1.
        on_ok (observe previous row) _ h1 λ seen e2 h2.
          let o : Observation = record { finished = finish; classification = seen.0 } in
          let (t, n) = observe_all-Totals seen.1 _ rows h2 (
            count_up-Counted of_class acc.observations o seen.0 acc.entire (λ l. refl) e,
            window_step acc.observations finish seen.0 acc.window w,
          ) in
          (t, omega (arith, n, length-append acc.observations (o ∷ [])))

abbrev one_of : Bool → ℕ
one_of b = if b then 1 else 0

-- Every observation has one class.
one_class :
    (k : Classification)
    → one_of (same_class rejected k)
        + one_of (same_class strictly_advanced k)
        + one_of (same_class repeated_or_partial k)
        + one_of (same_class initial_or_changed_membership k)
      ≡ 1
one_class rejected = refl
one_class strictly_advanced = refl
one_class repeated_or_partial = refl
one_class initial_or_changed_membership = refl

classes :
    (os : List Observation)
    → count_if (of_class rejected) os
        + count_if (of_class strictly_advanced) os
        + count_if (of_class repeated_or_partial) os
        + count_if (of_class initial_or_changed_membership) os
      ≡ length os
classes [] = refl
classes (o ∷ os) = omega (arith, classes os, one_class o.classification)

inside-le-of_class :
    (onset end : ℕ) (k : Classification) (os : List Observation)
    → count_if (inside onset end k) os ≤ count_if (of_class k) os
inside-le-of_class onset end k [] = omega arith
inside-le-of_class onset end k (o ∷ os) = ground (arith, inside-le-of_class onset end k os)

-- When the totals of some rows are computed, there is one observation for each row. Each count of the
-- entire capture is the number of observations of its class, and each of the window's that of those
-- of its class that finish in [onset, end); the accepted ones are the three other classes together.
-- So every row is accepted or rejected, and the window's counts are at most those of the capture.
pub signal_totals-Totals :
    (onset end : ℕ) (rows : List Row) (s : Signals)
    → signal_totals onset end rows ≡ ok s
    → Totals onset end s
      × (length s.observations ≡ length rows)
      × (s.entire.accepted + s.entire.rejected ≡ length rows)
      × (s.window.accepted ≤ s.entire.accepted)
      × (s.window.rejected ≤ s.entire.rejected)
unfolding signal_totals
signal_totals-Totals onset end rows s h =
    let start : Signals = record { window = zeros; entire = zeros; observations = [] } in
    let (t, n) =
      observe_all-Totals onset end none start rows h
        ((refl, refl, refl, refl, refl), (refl, refl, refl, refl, refl)) in
    let ((r, a, e, i, m), (r', a', e', i', m')) = t in
    let all = classes s.observations in
    let below = λ (k : Classification). inside-le-of_class onset end k s.observations in
    (
      t,
      omega (arith, n),
      omega (arith, n, all, r, a, e, i, m),
      omega (
        arith,
        a,
        e,
        i,
        m,
        a',
        e',
        i',
        m',
        below strictly_advanced,
        below repeated_or_partial,
        below initial_or_changed_membership,
      ),
      omega (arith, r, r', below rejected),
    )

-- ===== src/Extract/Measurement/Rises.antt =====
-- The first scale-up of `compute_controlled_measurement` (hack/analyze/extract.py), against the count
-- that holds at each second.
use mathlib.Core.Option
use mathlib.Core.List.{head?}
use predictive_hpa.Prelude.{
  ℕ, suc, ◌+◌, ◌-◌, ◌≤◌, ◌<◌, ◌≡◌, refl, ◌∙◌, Option, none, some, List, [], ◌∷◌, arith, ltb, leb,
  ◌==◌, ok, keep_if, Bool-cases, inl, inr, ◌⊎◌,
}
use predictive_hpa.Timeline.{Sample, held, held-nil, held-before, held-early, held-late, Ascending}
use predictive_hpa.Extract.Window.{Window}
use predictive_hpa.Extract.Measurement.{Point, Event, timeline, events}
use predictive_hpa.Extract.Measurement.Checked.{timeline-IsChecked}
use predictive_hpa.Extract.Measurement.Levels.{Ascending-from}
use predictive_hpa.Extract.Measurement.Report.{summarize, is_scaleup}

-- From second `m` on the count first rises at the event, or never.
abbrev FirstRise : ℕ → Option Event → ℕ → (ℕ → ℕ) → Type 0
FirstRise onset none m count = (t : ℕ) → m ≤ t → count (suc t) ≤ count t
FirstRise onset (some e) m count =
    (m < e.time)
    × (e.after_onset ≡ e.time - onset)
    × (count (e.time - 1) < count e.time)
    × ((t : ℕ) → m ≤ t → suc t < e.time → count (suc t) ≤ count t)

module _ (b m : ℕ) (s : Sample) (ss : List Sample) (asc : Ascending m (s ∷ ss)) where
  abbrev count : ℕ → ℕ
  count = held b (s ∷ ss)

  at_change : (t : ℕ) → t ≡ s.time → count t ≡ s.replicas
  at_change t e =
      held-late b t s ss (omega arith) ∙ held-before s.replicas s.time t ss asc.1 (omega arith)

  falls_at :
      (t : ℕ)
      → s.replicas ≤ b
      → (s.time ≤ t → held s.replicas ss (suc t) ≤ held s.replicas ss t)
      → count (suc t) ≤ count t
  falls_at t le h = elim (Bool-cases (leb s.time t)) [
    | inl now ↦
        let p : s.time ≤ t = ground arith in
        rw (held-late b (suc t) s ss (omega arith), held-late b t s ss p) (h p)
    | inr early ↦
        let p : t < s.time = ground arith in
        let old = held-early b t s ss asc.1 p in
        elim (Bool-cases (leb s.time (suc t))) [
          | inl now ↦ let new = at_change (suc t) (ground arith) in omega arith
          | inr later ↦ let same = held-early b (suc t) s ss asc.1 (ground arith) in omega arith
        ]
  ]

  falls :
      (onset : ℕ) (o : Option Event)
      → s.replicas ≤ b
      → FirstRise onset o s.time (held s.replicas ss)
      → FirstRise onset o m count
  falls onset none le h = λ t p. falls_at t le (h t)
  falls onset (some e) le (h1, h0, h2, h3) = (
    omega arith,
    h0,
    rw (held-late b (e.time - 1) s ss (omega arith), held-late b e.time s ss (omega arith)) h2,
    λ t p q. falls_at t le (λ r. h3 t r q),
  )

  rises :
      (onset : ℕ)
      → b < s.replicas
      → FirstRise onset
          (some (record { time = s.time; after_onset = s.time - onset; old = b; new = s.replicas }))
          m
          count
  rises onset lt =
      let old = held-early b (s.time - 1) s ss asc.1 (omega arith) in
      let new = at_change s.time refl in
      (
        asc.0,
        refl,
        omega arith,
        λ t p q.
            omega
              (arith, held-early b (suc t) s ss asc.1 q, held-early b t s ss asc.1 (omega arith)),
      )

module _ (onset : ℕ) where
  events-FirstRise :
      (m b : ℕ) (ss : List Sample)
      → Ascending m ss
      → FirstRise onset (head? (keep_if is_scaleup (events onset b ss))) m (held b ss)
  unfolding events
  events-FirstRise m b [] a = λ t p. omega (arith, held-nil b t, held-nil b (suc t))
  events-FirstRise m b (s ∷ ss) a =
      let rest = events-FirstRise s.time s.replicas ss a.1 in
      elim (Bool-cases (s.replicas == b)) [
        | inl same ↦ rw same (falls b m s ss a onset _ (ground arith) rest)
        | inr differ ↦ elim (Bool-cases (ltb b s.replicas)) [
          | inl up ↦ rw (differ, up) (rises b m s ss a onset (ground arith))
          | inr down ↦ rw (differ, down) (falls b m s ss a onset _ (ground arith) rest)
        ]
      ]

module _ (onset : ℕ) (count : ℕ → ℕ) where
  first_rise :
      (o : Option Event)
      → FirstRise onset o onset count
      → ((Option.map (λ (e : Event). e.after_onset) o ≡ none)
          × ((k : ℕ) → count (onset + suc k) ≤ count (onset + k)))
        ⊎ ((d : ℕ) × (Option.map (λ (e : Event). e.after_onset) o ≡ some d)
            × (count (onset + d - 1) < count (onset + d))
            × ((k : ℕ) → (d ≤ k + 1) ⊎ (count (onset + suc k) ≤ count (onset + k))))
  first_rise none h = inl (
    refl,
    λ k.
        let e : onset + suc k ≡ suc (onset + k) = omega arith in rw e (h (onset + k) (omega arith)),
  )
  first_rise (some r) (after, timed, up, before) =
      let e : onset + r.after_onset ≡ r.time = omega arith in
      inr (
        r.after_onset,
        refl,
        rw e up,
        λ k. elim (Bool-cases (leb r.after_onset (k + 1))) [
          | inl past ↦ inl (ground arith)
          | inr yet ↦
              let n : onset + suc k ≡ suc (onset + k) = omega arith in
              inr (rw n (before (onset + k) (omega arith) (ground arith)))
        ],
      )

module _ (w : Window) (points : List Point) (base : Sample) (inside : List Sample) where
  -- Either no scale-up is reported and from onset on the count never rises; or `d` seconds are
  -- reported, the count rises `d` seconds after onset, and between onset and then it never does.
  pub summarize-first_scaleup :
      timeline w points ≡ ok (base, inside)
      → let first = (summarize w base inside).first_scaleup in
        let count = held base.replicas inside in
        ((first ≡ none) × ((k : ℕ) → count (w.onset + suc k) ≤ count (w.onset + k)))
        ⊎ ((d : ℕ) × (first ≡ some d)
            × (count (w.onset + d - 1) < count (w.onset + d))
            × ((k : ℕ) → (d ≤ k + 1) ⊎ (count (w.onset + suc k) ≤ count (w.onset + k))))
  unfolding summarize
  summarize-first_scaleup e =
      let c = timeline-IsChecked w points e in
      let rising = Ascending-from w.onset base.time inside c.from_onset c.ascending in
      first_rise w.onset (held base.replicas inside) _
        (events-FirstRise w.onset w.onset base.replicas inside rising)

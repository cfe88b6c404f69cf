-- ===== src/Extract/Measurement/Changes.antt =====
-- The events of `compute_controlled_measurement` (hack/analyze/extract.py) against the count that
-- holds at each second.
use mathlib.Core.Path.{subst}
use predictive_hpa.Prelude.{
  ℕ, ◌+◌, ◌<◌, ◌≡◌, ◌≢◌, refl, ◌∙◌, sym, List, [], ◌∷◌, arith, leb, ◌==◌, ok, last_or, All,
  Bool-cases, inl, inr,
}
use predictive_hpa.Timeline.{Sample, sample, held, held-before, Ascending}
use predictive_hpa.Extract.Window.{Window}
use predictive_hpa.Extract.Measurement.{Point, Event, timeline, events}
use predictive_hpa.Extract.Measurement.Checked.{timeline-IsChecked}
use predictive_hpa.Extract.Measurement.Report.{summarize}

-- The timeline that the events describe.
pub replayed : List Event → List Sample
replayed [] = []
replayed (e ∷ es) = sample e.time e.new ∷ replayed es

-- Each event starts from where the one before it ended, changes the count, and is timed from onset.
abbrev pub Linked : ℕ → ℕ → List Event → ℕ → Type 0
Linked onset v [] final = v ≡ final
Linked onset v (e ∷ es) final =
    (e.old ≡ v) × (e.new ≢ v) × (onset + e.after_onset ≡ e.time) × Linked onset e.new es final

-- Two continuations of a sample that agree once it holds.
held-agree :
    (v t : ℕ) (s : Sample) (rs ss : List Sample)
    → Ascending s.time rs
    → Ascending s.time ss
    → held s.replicas rs t ≡ held s.replicas ss t
    → held v (s ∷ rs) t ≡ held v (s ∷ ss) t
unfolding held
held-agree v t s rs ss ar ass e = elim (Bool-cases (leb s.time t)) [
  | inl now ↦ rw now e
  | inr later ↦ rw later (
      held-before v s.time t rs ar (ground arith)
      ∙ sym (held-before v s.time t ss ass (ground arith)))
]

module _ (onset : ℕ) where
  events-Linked :
      (b : Sample) (ss : List Sample)
      → All (λ s. onset < s.time) ss
      → Linked onset b.replicas (events onset b.replicas ss) (last_or b ss).replicas
  unfolding events
  events-Linked b [] h = refl
  events-Linked b (s ∷ ss) h = elim (Bool-cases (s.replicas == b.replicas)) [
    | inl e ↦ rw e (
        let same : s.replicas ≡ b.replicas = ground arith in
        subst (λ v. Linked onset v (events onset s.replicas ss) (last_or s ss).replicas) same
          (events-Linked s ss h.1))
    | inr e ↦ rw e (refl, ground arith, omega arith, events-Linked s ss h.1)
  ]

  replayed-Ascending :
      (m v : ℕ) (ss : List Sample) → Ascending m ss → Ascending m (replayed (events onset v ss))
  unfolding events replayed
  replayed-Ascending m v [] a = tt
  replayed-Ascending m v (s ∷ ss) a = elim (Bool-cases (s.replicas == v)) [
    | inl e ↦ rw e (weaken m s.time _ a.0 (replayed-Ascending s.time s.replicas ss a.1))
    | inr e ↦ rw e (a.0, replayed-Ascending s.time s.replicas ss a.1)
  ]
    where
      weaken : (m n : ℕ) (ss : List Sample) → m < n → Ascending n ss → Ascending m ss
      weaken m n [] h a = tt
      weaken m n (s ∷ ss) h a = (omega arith, a.1)

  held-replayed :
      (m v t : ℕ) (ss : List Sample)
      → Ascending m ss
      → held v (replayed (events onset v ss)) t ≡ held v ss t
  unfolding events replayed held
  held-replayed m v t [] a = refl
  held-replayed m v t (s ∷ ss) a = elim (Bool-cases (s.replicas == v)) [
    | inl e ↦ rw e (
        let same : s.replicas ≡ v = ground arith in
        rw same (held-replayed s.time v t ss a.1 ∙ ground arith))
    | inr e ↦ rw e (
        held-agree v t s _ ss (replayed-Ascending s.time s.replicas ss a.1) a.1
          (held-replayed s.time s.replicas t ss a.1))
  ]

module _ (w : Window) (points : List Point) (base : Sample) (inside : List Sample) where
  -- The events lose nothing: each links to the one before it, changes the count and is timed from
  -- onset, the last one ends at the final count, and at every second the initial count and the
  -- events give the count that holds.
  pub summarize-events :
      timeline w points ≡ ok (base, inside)
      → let m = summarize w base inside in
        Linked w.onset m.initial m.events m.final
        × ((t : ℕ) → held m.initial (replayed m.events) t ≡ held base.replicas inside t)
  unfolding summarize
  summarize-events e =
      let c = timeline-IsChecked w points e in
      (
        events-Linked w.onset base inside c.from_onset,
        λ t. held-replayed w.onset base.time base.replicas t inside c.ascending,
      )

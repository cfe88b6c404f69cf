-- ===== src/Extract/Measurement/Levels.antt =====
-- The replica counts that `compute_controlled_measurement` (hack/analyze/extract.py) reports at the
-- window's boundaries, its peak, and the bounds that they put on its sums.
use predictive_hpa.Prelude.{
  ℕ, ◌≤◌, ◌<◌, ◌≡◌, refl, ◌∙◌, sym, true, List, [], ◌∷◌, arith, leb, ok, last_or, All, Bool-cases,
  inl, inr, ◌⊎◌, max,
}
use predictive_hpa.Timeline.Hold.{next_time}
use predictive_hpa.Timeline.{Sample, held, held-cons, held-nil, held-before, Ascending, EndsBy}
use predictive_hpa.Extract.Window.{Window}
use predictive_hpa.Extract.Measurement.{Point, Totals, timeline, accumulate, add_sample, no_totals}
use predictive_hpa.Extract.Measurement.Checked.{timeline-IsChecked}
use predictive_hpa.Extract.Measurement.Report.{summarize, peak_of}

held-last :
    (b : ℕ) (s : Sample) (ss : List Sample)
    → EndsBy b ss
    → held s.replicas ss b ≡ (last_or s ss).replicas
held-last b s [] h = held-nil _ _
held-last b s (r ∷ ss) h =
    let now : leb r.time b ≡ true = ground arith in rw (held-cons, now) (held-last b r ss h.1)

accumulate-at_offered_end :
    (w : Window) (acc : Totals) (ss : List Sample)
    → (accumulate w acc ss).at_offered_end ≡ held acc.at_offered_end ss w.offered_end
unfolding accumulate
accumulate-at_offered_end w acc [] = sym (held-nil _ _)
accumulate-at_offered_end w acc (s ∷ ss) =
    rw held-cons (accumulate-at_offered_end w (add_sample w acc s (next_time w.tail_end ss)) ss)

-- `P` holds of every count, so of the count at each second.
All-held {κ} :
    (P : ℕ → Type κ) (v t : ℕ) (ss : List Sample)
    → P v
    → All (λ s. P s.replicas) ss
    → P (held v ss t)
All-held P v t [] h a = rw held-nil h
All-held P v t (s ∷ ss) h a = elim (Bool-cases (leb s.time t)) [
  | inl e ↦ rw (held-cons, e) (All-held P s.replicas t ss a.0 a.1)
  | inr e ↦ rw (held-cons, e) (All-held P v t ss h a.1)
]

le-peak_of :
    (m : ℕ) (ss : List Sample) → (m ≤ peak_of m ss) × All (λ s. s.replicas ≤ peak_of m ss) ss
unfolding peak_of
le-peak_of m [] = (omega arith, tt)
le-peak_of m (s ∷ ss) =
    let (h, a) = le-peak_of (max m s.replicas) ss in (omega arith, (omega arith, a))

-- The maximum is reached at the second of the sample that has it.
peak_of-held :
    (v m t' : ℕ) (ss : List Sample)
    → Ascending t' ss
    → (peak_of m ss ≡ m) ⊎ ((t : ℕ) × (t' < t) × (held v ss t ≡ peak_of m ss))
unfolding peak_of
peak_of-held v m t' [] a = inl refl
peak_of-held v m t' (s ∷ ss) a = elim (peak_of-held s.replicas (max m s.replicas) s.time ss a.1) [
  | inl e ↦ elim (Bool-cases (leb s.replicas m)) [
    | inl low ↦ inl (ground arith)
    | inr high ↦ inr (
      s.time,
      a.0,
      rw held-cons (
          let now : leb s.time s.time ≡ true = ground arith in
          rw now (held-before s.replicas s.time s.time ss a.1 (omega arith) ∙ ground arith)),
    )
  ]
  | inr (t, after, e) ↦
      inr (t, omega arith, rw held-cons (let now : leb s.time t ≡ true = ground arith in rw now e))
]

pub Ascending-from :
    (a m : ℕ) (ss : List Sample) → All (λ s. a < s.time) ss → Ascending m ss → Ascending a ss
Ascending-from a m [] h asc = tt
Ascending-from a m (s ∷ ss) h asc = (h.0, asc.1)

module _ (w : Window) (points : List Point) (base : Sample) (inside : List Sample) where
  -- The counts reported at onset, at the end of the offered load and at the end of the tail are the
  -- counts that hold there; at every second the count lies between 1 and the peak, and the peak is
  -- reached after onset.
  pub summarize-levels :
      w.onset ≤ w.offered_end
      → timeline w points ≡ ok (base, inside)
      → let m = summarize w base inside in
        let count = held base.replicas inside in
        (m.initial ≡ count w.onset)
        × (m.at_offered_end ≡ count w.offered_end)
        × (m.final ≡ count w.tail_end)
        × ((t : ℕ) → (1 ≤ count t) × (count t ≤ m.peak))
        × ((t : ℕ) × (w.onset ≤ t) × (count t ≡ m.peak))
  unfolding summarize
  summarize-levels h e =
      let c = timeline-IsChecked w points e in
      let rising = Ascending-from w.onset base.time inside c.from_onset c.ascending in
      let top = le-peak_of base.replicas inside in
      (
        sym (held-before base.replicas w.onset w.onset inside rising (omega arith)),
        accumulate-at_offered_end w (no_totals base.replicas) (base ∷ inside)
            ∙ (let now : leb base.time w.offered_end ≡ true = ground arith in rw (held-cons, now)),
        sym (held-last w.tail_end base inside c.ends_by),
        λ t. (
          All-held (λ n. 1 ≤ n) base.replicas t inside c.base_counts c.counts,
          All-held (λ n. n ≤ peak_of base.replicas inside) base.replicas t inside top.0 top.1,
        ),
        elim (peak_of-held base.replicas base.replicas w.onset inside rising) [
          | inl p ↦ (
            w.onset,
            omega arith,
            held-before base.replicas w.onset w.onset inside rising (omega arith) ∙ sym p,
          )
          | inr (t, after, p) ↦ (t, omega arith, p)
        ],
      )

-- ===== src/Extract/Measurement/Milestones.antt =====
-- The moments that `compute_controlled_measurement` (hack/analyze/extract.py) reports, against the
-- count that holds at each second.
use mathlib.Core.Path.{subst}
use predictive_hpa.Prelude.{
  ℕ, ◌+◌, ◌-◌, ◌≤◌, ◌<◌, ◌≡◌, ◌≢◌, refl, ◌∙◌, sym, Bool, true, false, Option, none, some, List, [],
  ◌∷◌, arith, leb, ◌==◌, ok, ◌&&◌, keep_if, get_last?, last_or, All, Bool-cases, inl, inr, ◌⊎◌,
  All-keep, keep_if-keep_if, get_last?-keep_if_cons, leb→le, get_last?-eq-none, All-get_last?,
}
use predictive_hpa.Timeline.{
  Sample, held, held-nil, held-before, held-early, held-late, held-same, Ascending,
}
use predictive_hpa.Extract.Window.{Window}
use predictive_hpa.Extract.Measurement.{Point, Event, timeline, events}
use predictive_hpa.Extract.Measurement.Checked.{timeline-IsChecked}
use predictive_hpa.Extract.Measurement.Report.{summarize, is_post_down, full_scaledown_of}

module _ (onset : ℕ) where
  events-after :
      (m v : ℕ) (ss : List Sample) → Ascending m ss → All (λ e. m < e.time) (events onset v ss)
  unfolding events
  events-after m v [] a = tt
  events-after m v (s ∷ ss) a = elim (Bool-cases (s.replicas == v)) [
    | inl e ↦ rw e (weaken (events onset s.replicas ss) (events-after s.time s.replicas ss a.1))
    | inr e ↦
        rw e (a.0, weaken (events onset s.replicas ss) (events-after s.time s.replicas ss a.1))
  ]
    where
      weaken : (es : List Event) → All (λ e. s.time < e.time) es → All (λ e. m < e.time) es
      weaken [] h = tt
      weaken (e ∷ es) h = (omega arith, weaken es h.1)

module _ (onset offered : ℕ) where
  abbrev is_return : Event → Bool
  is_return e = is_post_down offered e && e.new == 1

  -- After the last return to one replica, or else since the end of the offered load, the count is 1.
  abbrev Settles : Option Event → (ℕ → ℕ) → Type 0
  Settles none count = (t : ℕ) → offered ≤ t → count t ≡ 1
  Settles (some e) count =
      (offered ≤ e.time) × ((t : ℕ) → e.time ≤ t → count t ≡ 1) × (count (e.time - 1) ≢ 1)

  module _ (b s : Sample) (ss : List Sample) (asc : Ascending b.time (s ∷ ss))
      (differ : s.replicas ≢ b.replicas) (counts : 1 ≤ b.replicas) where
    abbrev change : Event
    change = record {
      time = s.time;
      after_onset = s.time - onset;
      old = b.replicas;
      new = s.replicas;
    }

    abbrev later : List Event
    later = events onset s.replicas ss

    returned :
        (o : Option Event)
        → get_last? (keep_if is_return later) ≡ o
        → Settles o (held s.replicas ss)
        → Settles (get_last? (keep_if is_return (change ∷ later))) (held b.replicas (s ∷ ss))
    returned none e h = elim (Bool-cases (leb offered s.time)) [
      | inl after ↦
          let one : s.replicas ≡ 1 =
            sym (held-before s.replicas s.time s.time ss asc.1 (omega arith))
            ∙ h s.time (leb→le _ _ after) in
          let found : is_return change ≡ true = ground arith in
          rw (found, get_last?-eq-none (keep_if is_return later) e)
            (
              leb→le offered s.time after,
              λ t p. held-late b.replicas t s ss p ∙ h t (ground arith),
              λ p.
                  let old = held-early b.replicas (s.time - 1) s ss asc.1 (omega arith) in
                  differ (one ∙ sym p ∙ old),
            )
      | inr before ↦
          let missed : is_return change ≡ false = ground arith in
          rw (missed, e) (λ t p. held-late b.replicas t s ss (ground arith) ∙ h t p)
    ]
    returned (some r) e (h1, h2, h3) =
        let after : s.time < r.time =
          All-get_last? (λ (x : Event). s.time < x.time) (keep_if is_return later)
            (All-keep (λ (x : Event). s.time < x.time) is_return later
              (events-after onset s.time s.replicas ss asc.1))
            e in
        rw (get_last?-keep_if_cons is_return change r later e) (
          h1,
          λ t p. held-late b.replicas t s ss (omega arith) ∙ h2 t p,
          λ p. h3 (sym (held-late b.replicas (r.time - 1) s ss (omega arith)) ∙ p),
        )

  settles :
      (b : Sample) (ss : List Sample)
      → Ascending b.time ss
      → 1 ≤ b.replicas
      → All (λ s. 1 ≤ s.replicas) ss
      → (last_or b ss).replicas ≡ 1
      → Settles (get_last? (keep_if is_return (events onset b.replicas ss))) (held b.replicas ss)
  unfolding events
  settles b [] a l c e = λ t p. held-nil b.replicas t ∙ e
  settles b (s ∷ ss) a l c e =
      let rest = settles s ss a.1 c.0 c.1 e in
      elim (Bool-cases (s.replicas == b.replicas)) [
        | inl same ↦ rw same (
            subst
              (λ (g : ℕ → ℕ).
                Settles (get_last? (keep_if is_return (events onset s.replicas ss))) g)
              (held-same b.replicas s ss (ground arith)) rest)
        | inr differ ↦ rw differ (returned b s ss a (ground arith) l _ refl rest)
      ]

  reported :
      (o : Option Event) (count : ℕ → ℕ)
      → Settles o count
      → (d : ℕ) × (full_scaledown_of offered o ≡ some d)
        × ((k : ℕ) → count (offered + d + k) ≡ 1)
        × ((d ≡ 0) ⊎ (count (offered + d - 1) ≢ 1))
  reported none count h = (0, refl, λ k. h (offered + 0 + k) (omega arith), inl refl)
  reported (some r) count (h1, h2, h3) =
      let e : offered + (r.time - offered) ≡ r.time = omega arith in
      (r.time - offered, refl, rw e (λ k. h2 (r.time + k) (omega arith)), inr (rw e h3))

-- The full scale-down, in an incomplete and in a complete observation.
module _ (w : Window) (points : List Point) (base : Sample) (inside : List Sample) where
  -- Either the count has not come back to one at the end of the tail, and no full scale-down is
  -- reported; or `d` seconds are reported, the count is one from `d` seconds after the offered load
  -- on, and either `d` is 0 or it was not one a second earlier.
  pub summarize-full_scaledown :
      timeline w points ≡ ok (base, inside)
      → let m = summarize w base inside in
        let count = held base.replicas inside in
        ((m.final ≢ 1) × (m.scaledown_completed ≡ false) × (m.full_scaledown ≡ none))
        ⊎ ((d : ℕ) × (m.scaledown_completed ≡ true)
            × (m.full_scaledown ≡ some d)
            × ((k : ℕ) → count (w.offered_end + d + k) ≡ 1)
            × ((d ≡ 0) ⊎ (count (w.offered_end + d - 1) ≢ 1)))
  unfolding summarize
  summarize-full_scaledown e =
      let c = timeline-IsChecked w points e in
      elim (Bool-cases ((last_or base inside).replicas == 1)) [
        | inl done ↦
            let final : (last_or base inside).replicas ≡ 1 = ground arith in
            let s =
              settles w.onset w.offered_end base inside c.ascending c.base_counts c.counts final in
            let (d, full, after, minimal) = reported w.onset w.offered_end _ _ s in
            inr (d, done, rw (done, keep_if-keep_if) full, after, minimal)
        | inr not_yet ↦ inl (ground arith, not_yet, rw not_yet)
      ]

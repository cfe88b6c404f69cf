-- ===== src/Replay/Requested/Possible.antt =====
-- What `check_requested_observations` (hack/analyze/decision_replay.py) accepts.
use mathlib.Core.Path.{subst}
use predictive_hpa.Prelude.{
  ℕ, ◌≤◌, ◌≡◌, ◌⊎◌, ◌↔◌, refl, sym, ◌∙◌, inl, inr, arith, Bool, true, false, ◌||◌, ◌&&◌, List, [],
  ◌∷◌, ltb, leb, leb→le, and_true, max, All-map, false≢true, ◌==◌, any_of, Bool-cases, All,
}
use predictive_hpa.Replay.Requested.{Write, preceding, overlaps, touched, candidates}

-- A write at work at an instant that has the count before or after it.
abbrev pub at_work : ℕ → ℕ → Write → Bool
at_work t n w = leb w.started t && leb t w.finished && (n == w.old || n == w.new)

-- The count that an instant may show: what the writes that finished before it left, or either count of
-- a write that is at work.
abbrev pub Possible : ℕ → List Write → ℕ → ℕ → Type 0
Possible initial writes t n =
    (n ≡ preceding initial writes t) ⊎ (any_of (at_work t n) writes ≡ true)

abbrev pub AreIntervals : List Write → Type 0
AreIntervals = All (λ w. w.started ≤ w.finished)

module _ (start end n : ℕ) (order : start ≤ end) where
  abbrev Touched : List Write → Type 0
  Touched ws = any_of (λ m. n == m) (touched start end ws) ≡ true

  -- The first write, where it overlaps the read and where it does not.
  Touched-here :
      (w : Write) (ws : List Write)
      → overlaps start end w ≡ true
      → (n == w.old || (n == w.new || any_of (λ m. n == m) (touched start end ws))) ≡ true
      → Touched (w ∷ ws)
  unfolding touched
  Touched-here w ws o h = rw o h

  Touched-rest : (w : Write) (ws : List Write) → Touched ws → Touched (w ∷ ws)
  unfolding touched
  Touched-rest w ws h = elim (Bool-cases (overlaps start end w)) [
    | inl o ↦ rw (o, h) (ground arith)
    | inr o ↦ rw o h
  ]

  at_work-first :
      (w : Write) (ws : List Write)
      → overlaps start end w ≡ true
      → w.started ≤ w.finished
      → (n == w.old || n == w.new) ≡ true
      → (t : ℕ) × (start ≤ t) × (t ≤ end) × (any_of (at_work t n) (w ∷ ws) ≡ true)
  at_work-first w ws o i hit =
      let (l, r) = and_true (leb w.started end) (leb start w.finished) o in
      let below = leb→le w.started end l in
      let above = leb→le start w.finished r in
      let from : leb w.started (max start w.started) ≡ true = ground arith in
      let to : leb (max start w.started) w.finished ≡ true = ground arith in
      (max start w.started, omega arith, omega arith, rw (from, to, hit) refl)

  -- A touched count is possible while its write works.
  Touched-Possible :
      (ws : List Write)
      → Touched ws
      → AreIntervals ws
      → (t : ℕ) × (start ≤ t) × (t ≤ end) × (any_of (at_work t n) ws ≡ true)
  unfolding touched
  Touched-Possible [] h a = cc
  Touched-Possible (w ∷ ws) h (i, a) = elim (Bool-cases (overlaps start end w)) [
    | inl o ↦
        let h' : (n == w.old || (n == w.new || any_of (λ m. n == m) (touched start end ws)))
            ≡ true =
          rw o at h in
        elim (Bool-cases (n == w.old || n == w.new)) [
          | inl hit ↦ at_work-first w ws o i hit
          | inr miss ↦
              let rest : Touched ws = ground arith in
              let (t, l, r, k) = Touched-Possible ws rest a in (t, l, r, rw k (ground arith))
        ]
    | inr o ↦
        let rest : Touched ws = rw o at h in
        let (t, l, r, k) = Touched-Possible ws rest a in (t, l, r, rw k (ground arith))
  ]

  at_work-Touched :
      (t : ℕ) (ws : List Write) → start ≤ t → t ≤ end → any_of (at_work t n) ws ≡ true → Touched ws
  at_work-Touched t [] l r h = cc
  at_work-Touched t (w ∷ ws) l r h = elim (Bool-cases (at_work t n w)) [
    | inl working ↦
        let (times, hit) =
          and_true (leb w.started t && leb t w.finished) (n == w.old || n == w.new) working in
        let (from, to) = and_true (leb w.started t) (leb t w.finished) times in
        let begun = leb→le w.started t from in
        let ends = leb→le t w.finished to in
        let o : overlaps start end w ≡ true = ground arith in Touched-here w ws o (ground arith)
    | inr idle ↦
        let rest : any_of (at_work t n) ws ≡ true = ground arith in
        Touched-rest w ws (at_work-Touched t ws l r rest)
  ]

module _ (start end : ℕ) (order : start ≤ end) where
  abbrev Hit : List Write → ℕ → Type 0
  Hit ws x = any_of (λ m. x == m) (touched start end ws) ≡ true

  new-Hit : (ws : List Write) → All (λ w. (overlaps start end w ≡ false) ⊎ Hit ws w.new) ws
  new-Hit [] = tt
  new-Hit (w ∷ ws) = (
    elim (Bool-cases (overlaps start end w)) [
      | inl o ↦
          let same : (w.new == w.new) ≡ true = ground arith in
          inr (Touched-here start end w.new order w ws o (rw same (ground arith)))
      | inr o ↦ inl o
    ],
    All-map ws (λ x e. later x e) (new-Hit ws),
  )
    where
      later :
          (x : Write)
          → (overlaps start end x ≡ false) ⊎ Hit ws x.new
          → (overlaps start end x ≡ false) ⊎ Hit (w ∷ ws) x.new
      later x (inl e) = inl e
      later x (inr e) = inr (Touched-rest start end x.new order w ws e)

  -- The count before an instant of the read is that before the read, or it satisfies `Q`, as the counts
  -- after overlapping writes do.
  preceding-cases :
      (Q : ℕ → Type 0) (t : ℕ)
      → start ≤ t
      → t ≤ end
      → (ws : List Write) (m k : ℕ) → AreIntervals ws
      → All (λ w. (overlaps start end w ≡ false) ⊎ Q w.new) ws
      → (m ≡ k) ⊎ Q m
      → (preceding m ws t ≡ preceding k ws start) ⊎ Q (preceding m ws t)
  unfolding preceding
  preceding-cases Q t l r [] m k i a h = h
  preceding-cases Q t l r (w ∷ ws) m k (i, is) (q, a) h = elim (Bool-cases (ltb w.finished start)) [
    | inl early ↦
        let earlier : ltb w.finished t ≡ true = ground arith in
        rw (early, earlier) (preceding-cases Q t l r ws w.new w.new is a (inl refl))
    | inr late ↦ elim (Bool-cases (ltb w.finished t)) [
      | inl done ↦
          let o : overlaps start end w ≡ true = ground arith in
          let hit : Q w.new = elim q [
            | inl misses ↦ absurd (false≢true (sym misses ∙ o))
            | inr hits ↦ hits
          ] in
          rw (late, done) (preceding-cases Q t l r ws w.new k is a (inr hit))
      | inr still ↦ rw (late, still) (preceding-cases Q t l r ws m k is a h)
    ]
  ]

-- For writes whose finish is not before their start, the candidates for a read are exactly the counts
-- that some instant of the read may show.
pub candidates-iff_Possible :
    (initial : ℕ) (writes : List Write) (start end n : ℕ)
    → start ≤ end
    → AreIntervals writes
    → (any_of (λ m. n == m) (candidates initial writes start end) ≡ true)
      ↔ ((t : ℕ) × (start ≤ t) × (t ≤ end) × Possible initial writes t n)
unfolding candidates
candidates-iff_Possible initial writes start end n order a = (
  λ h. elim (Bool-cases (n == preceding initial writes start)) [
    | inl first ↦
        let same : n ≡ preceding initial writes start = ground arith in
        (start, omega arith, order, inl same)
    | inr other ↦
        let rest : any_of (λ m. n == m) (touched start end writes) ≡ true = ground arith in
        let (t, l, r, k) = Touched-Possible start end n order writes rest a in (t, l, r, inr k)
  ],
  λ (t, l, r, p). elim p [
    | inl e ↦
        elim (preceding-cases start end order (Hit start end order writes) t l r writes initial
          initial a (new-Hit start end order writes) (inl refl)) [
            | inl same ↦
                let here : (n == preceding initial writes start) ≡ true =
                  rw (e ∙ same) (ground arith) in
                rw here refl
            | inr hit ↦
                let touch : any_of (λ m. n == m) (touched start end writes) ≡ true =
                  subst (λ x. any_of (λ m. x == m) (touched start end writes) ≡ true) (sym e) hit in
                rw touch (ground arith)
          ]
    | inr k ↦
        let touch : any_of (λ m. n == m) (touched start end writes) ≡ true =
          at_work-Touched start end n order t writes l r k in
        rw touch (ground arith)
  ],
)

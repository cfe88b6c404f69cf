-- ===== src/Extract/Measurement/Ordered.antt =====
-- hack/analyze/extract.py, compute_controlled_measurement: the points in order of time.
use mathlib.Core.Path.{subst}
use mathlib.Core.Option.{some-injective}
use predictive_hpa.Prelude.{
  ◌≤◌, ◌≡◌, sym, ◌∙◌, false≢true, Bool, true, some, List, [], ◌∷◌, arith, last_or, get_last?,
  keep_if, All, All-keep, All-map, Bool-cases, inl, inr,
}
use predictive_hpa.Extract.Measurement.{Point, lt_point, insert, sorted}

-- Times that do not fall.
abbrev pub Rising : List Point → Type 0
Rising [] = Unit
Rising (p ∷ ps) = All (λ q. p.time ≤ q.time) ps × Rising ps

insert-All :
    (P : Point → Type 0) (p : Point) (qs : List Point) → P p → All P qs → All P (insert p qs)
unfolding insert
insert-All P p [] h a = (h, tt)
insert-All P p (q ∷ qs) h a = elim (Bool-cases (lt_point q p)) [
  | inl e ↦ rw e (a.0, insert-All P p qs h a.1)
  | inr e ↦ rw e (h, a)
]

insert-All_parts :
    (P : Point → Type 0) (p : Point) (qs : List Point) → All P (insert p qs) → P p × All P qs
unfolding insert
insert-All_parts P p [] a = (a.0, tt)
insert-All_parts P p (q ∷ qs) a = elim (Bool-cases (lt_point q p)) [
  | inl e ↦
      let a' : P q × All P (insert p qs) = rw e at a in
      let rest = insert-All_parts P p qs a'.1 in (rest.0, (a'.0, rest.1))
  | inr e ↦ let a' : P p × All P (q ∷ qs) = rw e at a in (a'.0, a'.1)
]

insert-Rising : (p : Point) (qs : List Point) → Rising qs → Rising (insert p qs)
unfolding insert
insert-Rising p [] r = (tt, tt)
insert-Rising p (q ∷ qs) r = elim (Bool-cases (lt_point q p)) [
  | inl e ↦
      let low : q.time ≤ p.time = ground arith in
      rw e (insert-All (λ x. q.time ≤ x.time) p qs low r.0, insert-Rising p qs r.1)
  | inr e ↦
      let low : p.time ≤ q.time = ground arith in
      rw e ((low, All-map qs (λ x h. omega (arith, low, h)) r.0), r)
]

pub sorted-Rising : (ps : List Point) → Rising (sorted ps)
unfolding sorted
sorted-Rising [] = tt
sorted-Rising (p ∷ ps) = insert-Rising p (sorted ps) (sorted-Rising ps)

-- What holds of the points in order holds of them all, and the other way round.
pub sorted-All_parts : (P : Point → Type 0) (ps : List Point) → All P (sorted ps) → All P ps
unfolding sorted
sorted-All_parts P [] a = tt
sorted-All_parts P (p ∷ ps) a =
    let (h, rest) = insert-All_parts P p (sorted ps) a in (h, sorted-All_parts P ps rest)

pub sorted-All : (P : Point → Type 0) (ps : List Point) → All P ps → All P (sorted ps)
unfolding sorted
sorted-All P [] a = tt
sorted-All P (p ∷ ps) a = insert-All P p (sorted ps) a.0 (sorted-All P ps a.1)

pub keep_if-Rising : (test : Point → Bool) (ps : List Point) → Rising ps → Rising (keep_if test ps)
keep_if-Rising test [] r = tt
keep_if-Rising test (p ∷ ps) r = elim (Bool-cases (test p)) [
  | inl e ↦ rw e (All-keep (λ q. p.time ≤ q.time) test ps r.0, keep_if-Rising test ps r.1)
  | inr e ↦ rw e (keep_if-Rising test ps r.1)
]

-- The last time is the greatest.
Rising-last :
    (p : Point) (ps : List Point)
    → Rising (p ∷ ps)
    → All (λ q. q.time ≤ (last_or p ps).time) (p ∷ ps)
Rising-last p [] r = (omega arith, tt)
Rising-last p (q ∷ qs) r = let rest = Rising-last q qs r.1 in (omega (arith, r.0.0, rest.0), rest)

pub Rising-get_last? :
    (ps : List Point) (b : Point)
    → Rising ps
    → get_last? ps ≡ some b
    → All (λ q. q.time ≤ b.time) ps
Rising-get_last? [] b r h = tt
Rising-get_last? (p ∷ ps) b r h =
    subst (λ (x : Point). All (λ (q : Point). q.time ≤ x.time) (p ∷ ps)) (some-injective _ _ h)
      (Rising-last p ps r)

-- What holds of the points that are kept holds of those that pass the test.
pub All-of_kept :
    (P : Point → Type 0) (test : Point → Bool) (ps : List Point)
    → All P (keep_if test ps)
    → All (λ q. test q ≡ true → P q) ps
All-of_kept P test [] a = tt
All-of_kept P test (p ∷ ps) a = elim (Bool-cases (test p)) [
  | inl e ↦
      let a' : P p × All P (keep_if test ps) = rw e at a in (λ _. a'.0, All-of_kept P test ps a'.1)
  | inr e ↦
      let a' : All P (keep_if test ps) = rw e at a in
      (λ t. absurd (false≢true (sym e ∙ t)), All-of_kept P test ps a')
]

-- ===== src/Timeline.antt =====
-- Replica samples over time as a step function: what "the value holds until the next sample" means,
-- independently of the loops that compute with it (hack/analyze/extract.py, latency.py).
pub mod Integral
pub mod Hold
use mathlib.Core.Path.{fun_ext}
use predictive_hpa.Prelude.{
  ap, true, false, Bool-cases, inl, inr, ℕ, ◌<◌, ◌≤◌, ◌≡◌, refl, List, [], ◌∷◌, arith, leb,
  if◌then◌else◌,
}

-- A replica count read at a Unix second.
pub record Sample : Type 0 where
  pub time : ℕ
  pub replicas : ℕ

abbrev pub sample : ℕ → ℕ → Sample
sample t n = record { time = t; replicas = n }

-- The count that holds at second `t`: that of the last sample at or before `t`, else `v`.
unfoldable pub held : ℕ → List Sample → ℕ → ℕ
held v [] t = v
held v (s ∷ ss) t = held (if leb s.time t then s.replicas else v) ss t

-- Times rise strictly, from above `t`.
abbrev pub Ascending : ℕ → List Sample → Type 0
Ascending t [] = Unit
Ascending t (s ∷ ss) = (t < s.time) × Ascending s.time ss

abbrev pub EndsBy : ℕ → List Sample → Type 0
EndsBy b [] = Unit
EndsBy b (s ∷ ss) = (s.time ≤ b) × EndsBy b ss

pub held-cons :
    (v : ℕ) (s : Sample) (ss : List Sample) (t : ℕ)
    → held v (s ∷ ss) t ≡ held (if leb s.time t then s.replicas else v) ss t
unfolding held
held-cons v s ss t = refl

pub held-nil : (v t : ℕ) → held v [] t ≡ v
unfolding held
held-nil v t = refl

-- Before its first sample nothing changes.
pub held-before : (v m t : ℕ) (ss : List Sample) → Ascending m ss → t ≤ m → held v ss t ≡ v
unfolding held
held-before v m t [] a h = refl
held-before v m t (s ∷ ss) a h = ground (arith, held-before v s.time t ss a.1)

-- The count around its first change `s`.
pub held-early :
    (v t : ℕ) (s : Sample) (ss : List Sample)
    → Ascending s.time ss
    → t < s.time
    → held v (s ∷ ss) t ≡ v
held-early v t s ss a h =
    let later : leb s.time t ≡ false = ground arith in
    rw (held-cons, later) (held-before v s.time t ss a (omega arith))

pub held-late :
    (v t : ℕ) (s : Sample) (ss : List Sample)
    → s.time ≤ t
    → held v (s ∷ ss) t ≡ held s.replicas ss t
held-late v t s ss h = let now : leb s.time t ≡ true = ground arith in rw (held-cons, now)

pub held-same :
    (v : ℕ) (s : Sample) (ss : List Sample) → s.replicas ≡ v → held s.replicas ss ≡ held v (s ∷ ss)
held-same v s ss e = fun_ext (λ t. elim (Bool-cases (leb s.time t)) [
  | inl now ↦ rw (held-cons, now)
  | inr later ↦ rw (held-cons, later) (ap (λ (n : ℕ). held n ss t) e)
])

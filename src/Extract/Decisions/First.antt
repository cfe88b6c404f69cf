-- ===== src/Extract/Decisions/First.antt =====
-- What `compute_first_upscale_decision` (hack/analyze/extract.py) reports.
use predictive_hpa.Prelude.{
  ℕ, ◌-◌, ◌≤◌, ◌≡◌, ◌⊎◌, ◌∙◌, refl, ap, sym, inl, inr, arith, Bool, true, false, ◌&&◌, not, Option,
  none, some, List, [], ◌∷◌, map, min, if◌then◌else◌, keep_if, any_of, Bool-cases, All, leb, leb→le,
  leb→lt, ◌==◌, All-map, ok, on_pass, ok-injective, and_true,
}
use mathlib.Core.Path.{subst}
use mathlib.Core.Option.{some-injective}
use predictive_hpa.Extract.Decisions.{
  Decision, is_upscale, inside, micros, time_of, earliest, earlier_of, upscales, FirstUpscale,
  first_upscale, InvalidCount, invalid_previous, is_empty, is_no_count, since_onset,
}

-- The times of the entries that pass a test.
abbrev times : (Decision → Bool) → List Decision → List ℕ
times p ds = map (λ d. time_of d.timestamp) (keep_if p ds)

abbrev Least : (Decision → Bool) → List Decision → ℕ → Type 0
Least p ds t =
    (any_of (λ d. p d && time_of d.timestamp == t) ds ≡ true)
    × All (λ d. (p d ≡ false) ⊎ (t ≤ time_of d.timestamp)) ds

abbrev IsEarliest : (Decision → Bool) → List Decision → Option ℕ → Type 0
IsEarliest p ds o =
    ((o ≡ none) × All (λ d. p d ≡ false) ds) ⊎ ((t : ℕ) × (o ≡ some t) × Least p ds t)

no_later :
    (p : Decision → Bool) (t u : ℕ)
    → u ≤ t
    → (x : Decision) → (p x ≡ false) ⊎ (t ≤ time_of x.timestamp)
    → (p x ≡ false) ⊎ (u ≤ time_of x.timestamp)
no_later p t u below x (inl h) = inl h
no_later p t u below x (inr h) = inr (omega arith)

module _ (p : Decision → Bool) (d : Decision) (ds : List Decision) where
  -- One more entry, which passes the test.
  earlier_of-none : p d ≡ true → All (λ d. p d ≡ false) ds → Least p (d ∷ ds) (time_of d.timestamp)
  earlier_of-none h a =
      let same : (time_of d.timestamp == time_of d.timestamp) ≡ true = ground arith in
      (rw (h, same) refl, (inr (omega arith), All-map ds (λ x q. inl q) a))

  earlier_of-some :
      p d ≡ true → (t : ℕ) → Least p ds t → Least p (d ∷ ds) (min (time_of d.timestamp) t)
  earlier_of-some h t (known, a) = elim (Bool-cases (leb (time_of d.timestamp) t)) [
    | inl before ↦
        let this : time_of d.timestamp ≡ min (time_of d.timestamp) t = ground arith in
        let same : (time_of d.timestamp == time_of d.timestamp) ≡ true = ground arith in
        let below = leb→le (time_of d.timestamp) t before in
        subst (Least p (d ∷ ds)) this (
          rw (h, same) refl,
          (inr (omega arith), All-map ds (λ x q. no_later p t (time_of d.timestamp) below x q) a),
        )
    | inr after ↦
        let that : t ≡ min (time_of d.timestamp) t = ground arith in
        let above = leb→lt (time_of d.timestamp) t after in
        subst (Least p (d ∷ ds)) that (rw known (ground arith), (inr (omega arith), a))
  ]

  earlier_of-IsEarliest :
      (o : Option ℕ)
      → p d ≡ true
      → IsEarliest p ds o
      → IsEarliest p (d ∷ ds) (earlier_of (time_of d.timestamp) o)
  earlier_of-IsEarliest none h (inl (e, a)) = inr (time_of d.timestamp, refl, earlier_of-none h a)
  earlier_of-IsEarliest none h (inr (t, e, l)) = cc
  earlier_of-IsEarliest (some u) h (inl (e, a)) = cc
  earlier_of-IsEarliest (some u) h (inr (t, e, l)) = inr (
    min (time_of d.timestamp) u,
    refl,
    earlier_of-some h u (subst (Least p ds) (sym (some-injective _ _ e)) l),
  )

earliest-IsEarliest :
    (p : Decision → Bool) (ds : List Decision) → IsEarliest p ds (earliest (times p ds))
unfolding earliest
earliest-IsEarliest p [] = inl (refl, tt)
earliest-IsEarliest p (d ∷ ds) = elim (Bool-cases (p d)) [
  | inl h ↦
      let more : earlier_of (time_of d.timestamp) (earliest (times p ds))
          ≡ earliest (times p (d ∷ ds)) =
        rw h refl in
      subst (IsEarliest p (d ∷ ds)) more
        (earlier_of-IsEarliest p d ds (earliest (times p ds)) h (earliest-IsEarliest p ds))
  | inr h ↦ elim (earliest-IsEarliest p ds) [
    | inl (e, a) ↦ rw h (inl (e, (refl, a)))
    | inr (t, e, (known, a)) ↦ rw h (inr (t, e, (known, (inl refl, a))))
  ]
]

any_of-exists :
    (q : Decision → Bool) (ds : List Decision) → any_of q ds ≡ true → (d : Decision) × (q d ≡ true)
any_of-exists q [] h = cc
any_of-exists q (d ∷ ds) h = elim (Bool-cases (q d)) [
  | inl e ↦ (d, e)
  | inr e ↦ let rest : any_of q ds ≡ true = ground arith in any_of-exists q ds rest
]

inside-bounds :
    (onset end : ℕ) (o : Option ℕ)
    → inside onset end o ≡ true
    → (micros onset ≤ time_of o) × (time_of o ≤ micros end)
inside-bounds onset end none h = cc
inside-bounds onset end (some t) h =
    let (l, r) = and_true (leb (micros onset) t) (leb t (micros end)) h in
    (leb→le _ _ l, leb→le _ _ r)

Least-bounds :
    (applied : Bool) (onset end : ℕ) (ds : List Decision) (t : ℕ)
    → Least (is_upscale applied onset end) ds t
    → (micros onset ≤ t) × (t ≤ micros end)
unfolding is_upscale
Least-bounds applied onset end ds t (known, a) =
    let (d, h) =
      any_of-exists (λ d. is_upscale applied onset end d && time_of d.timestamp == t) ds known in
    let (up, at_t) = and_true (is_upscale applied onset end d) (time_of d.timestamp == t) h in
    let (ready, _) = and_true (inside onset end d.timestamp && d.scaled) _ up in
    let (within, _) = and_true (inside onset end d.timestamp) d.scaled ready in
    let bounds = inside-bounds onset end d.timestamp within in
    let same : time_of d.timestamp ≡ t = ground arith in
    subst (λ u. (micros onset ≤ u) × (u ≤ micros end)) same bounds

-- Updates of the Deployment, if the log has any, and otherwise all entries.
abbrev pub updates : List Decision → List Decision
updates decisions = keep_if (λ d. d.is_applied) decisions

abbrev pub has_updates : List Decision → Bool
has_updates decisions = not (is_empty (updates decisions))

abbrev pub candidates : List Decision → List Decision
candidates decisions = if has_updates decisions then updates decisions else decisions

abbrev pub upscaled : List Decision → ℕ → ℕ → Decision → Bool
upscaled decisions onset end = is_upscale (has_updates decisions) onset end

-- Where a result is computed for a measurement, it has no time exactly when no candidate is an upscale
-- inside the window; otherwise its time lies in the window, is that of a candidate that is an upscale
-- and is not later than that of any other, and is also given from onset.
pub first_upscale-earliest :
    (decisions : List Decision) (onset end : ℕ) (r : FirstUpscale)
    → first_upscale decisions (some (onset, end)) ≡ ok r
    → ((r.time ≡ none) × All (λ d. upscaled decisions onset end d ≡ false) (candidates decisions))
      ⊎ ((t : ℕ) × (r.time ≡ some t)
          × (r.after_onset ≡ some (t - micros onset))
          × ((micros onset ≤ t) × (t ≤ micros end))
          × (any_of
                (λ d. upscaled decisions onset end d && time_of d.timestamp == t)
                (candidates decisions)
              ≡ true)
          × All
              (λ d. (upscaled decisions onset end d ≡ false) ⊎ (t ≤ time_of d.timestamp))
              (candidates decisions))
unfolding first_upscale upscales
first_upscale-earliest decisions onset end r h =
    on_pass (any_of (λ d. is_no_count d.previous_desired) (updates decisions)) invalid_previous _ h
      λ _ h'.
        let e = ok-injective {E = InvalidCount} _ _ h' in
        let time = ap (λ (x : FirstUpscale). x.time) e in
        let after = ap (λ (x : FirstUpscale). x.after_onset) e in
        elim (earliest-IsEarliest (upscaled decisions onset end) (candidates decisions)) [
          | inl (none_found, a) ↦ inl (sym time ∙ none_found, a)
          | inr (t, found, l) ↦ inr (
            t,
            sym time ∙ found,
            sym after ∙ ap (since_onset (some (onset, end))) found,
            Least-bounds (has_updates decisions) onset end (candidates decisions) t l,
            l.0,
            l.1,
          )
        ]

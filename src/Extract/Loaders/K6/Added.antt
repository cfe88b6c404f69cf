-- ===== src/Extract/Loaders/K6/Added.antt =====
-- hack/analyze/extract.py, load_k6: what the points of a file add to the totals together.
use predictive_hpa.Prelude.{
  ℕ, ap, ◌++◌, sum_by, ◌+◌, true, ◌≡◌, ◌⊎◌, inl, inr, refl, sym, ◌∙◌, Option, some, none, List, [],
  ◌∷◌, All, Any, ok, on_ok, ok-injective, Bool-cases, arith, false≢true,
}
use predictive_hpa.Prelude.Int.{ℤ, pos, ltb_ℤ, ◌≤ℤ◌, ◌+ℤ◌, +ℤ_parts, eq_of_parts}
use predictive_hpa.Json.{Json, Error}
use predictive_hpa.Extract.Loaders.Values.{Parsers}
use predictive_hpa.Extract.Loaders.K6.{Totals, earlier, add_point, add_lines}
use predictive_hpa.Extract.Loaders.K6.Contribution.{is_point, time_of, add_zero, IsCounted}
use predictive_hpa.Extract.Loaders.K6.Step.{line, seen, add_point-IsCounted}
use predictive_hpa.Float.{Float}
use mathlib.Core.List.{append-nil, append_assoc}
use mathlib.Core.Path.{subst}

-- The lines that are JSON.
abbrev pub points : List (Option Json) → List Json
points [] = []
points (none ∷ lines) = points lines
points (some v ∷ lines) = v ∷ points lines

-- A time that was seen is not before the start.
abbrev pub IsNotBefore : Option ℤ → Option ℤ → Type 0
IsNotBefore start none = Unit
IsNotBefore none (some t) = ⊥
IsNotBefore (some s) (some t) = s ≤ℤ t

earlier-IsNotBefore_new : (s t : Option ℤ) → IsNotBefore (earlier s t) t
earlier-IsNotBefore_new s none = tt
earlier-IsNotBefore_new none (some t) = omega arith
earlier-IsNotBefore_new (some s) (some t) = elim (Bool-cases (ltb_ℤ t s)) [
  | inl e ↦ rw e (omega arith)
  | inr e ↦ rw e (ground arith)
]

earlier-IsNotBefore : (s t x : Option ℤ) → IsNotBefore s x → IsNotBefore (earlier s t) x
earlier-IsNotBefore s t none h = tt
earlier-IsNotBefore s none (some x) h = h
earlier-IsNotBefore none (some t) (some x) h = elim h [ ]
earlier-IsNotBefore (some s) (some t) (some x) h = elim (Bool-cases (ltb_ℤ t s)) [
  | inl e ↦ rw e (ground arith)
  | inr e ↦ rw e h
]

-- The earlier time is the one or the other.
earlier_cases : (s t : Option ℤ) → (earlier s t ≡ s) ⊎ (earlier s t ≡ t)
earlier_cases s none = inl refl
earlier_cases none (some t) = inr refl
earlier_cases (some s) (some t) = elim (Bool-cases (ltb_ℤ t s)) [
  | inl e ↦ inr (rw e refl)
  | inr e ↦ inl (rw e refl)
]

after_append :
    (xs ys zs : List Float) {us ws : List Float}
    → us ≡ xs ++ ys
    → ws ≡ us ++ zs
    → ws ≡ xs ++ (ys ++ zs)
after_append xs ys zs e f = f ∙ (ap (λ l. l ++ zs) e ∙ append_assoc xs ys zs)

add_assoc : (a b c : ℤ) → ((a +ℤ b) +ℤ c) ≡ (a +ℤ (b +ℤ c))
add_assoc a b c =
    eq_of_parts _ _
      (omega (arith, +ℤ_parts a b, +ℤ_parts (a +ℤ b) c, +ℤ_parts b c, +ℤ_parts a (b +ℤ c)))

after_add : (a b c : ℤ) {d e : ℤ} → d ≡ a +ℤ b → e ≡ d +ℤ c → e ≡ a +ℤ (b +ℤ c)
after_add a b c h k = k ∙ (ap (λ n. n +ℤ c) h ∙ add_assoc a b c)

pub zero_add : (n : ℤ) {m : ℤ} → m ≡ pos 0 +ℤ n → m ≡ n
zero_add n h = h ∙ eq_of_parts _ _ (omega (arith, +ℤ_parts (pos 0) n))

module _ (p : Parsers) where
  -- What the lines add: the durations in their order, the counts and the sums.
  abbrev pub durations_of : List Json → List Float
  durations_of [] = []
  durations_of (v ∷ vs) = (line p v).durations ++ durations_of vs

  abbrev pub successes_of : List Json → List Float
  successes_of [] = []
  successes_of (v ∷ vs) = (line p v).successes ++ successes_of vs

  abbrev pub requests_of : List Json → ℤ
  requests_of [] = pos 0
  requests_of (v ∷ vs) = (line p v).requests +ℤ requests_of vs

  abbrev pub dropped_of : List Json → ℤ
  dropped_of [] = pos 0
  dropped_of (v ∷ vs) = (line p v).dropped +ℤ dropped_of vs

  abbrev pub answered_of : List Json → ℕ
  answered_of vs = sum_by (λ v. (line p v).answered) vs

  abbrev pub failed_of : List Json → ℕ
  failed_of vs = sum_by (λ v. (line p v).failed) vs

  -- What a list of points adds to the totals.
  pub record IsTally (vs : List Json) (t t' : Totals) : Type 0 where
    pub durations : t'.all_durations_ms ≡ t.all_durations_ms ++ durations_of vs
    pub successes : t'.success_durations_ms ≡ t.success_durations_ms ++ successes_of vs
    pub answered : t'.http_200_count ≡ answered_of vs + t.http_200_count
    pub requests : t'.total_reqs ≡ t.total_reqs +ℤ requests_of vs
    pub failed : t'.failed_count ≡ failed_of vs + t.failed_count
    pub dropped : t'.dropped ≡ t.dropped +ℤ dropped_of vs
    pub keeps :
        (x : Option ℤ) → IsNotBefore t.observed_start_time x → IsNotBefore t'.observed_start_time x
    pub not_before :
        All (λ v. is_point v ≡ true → IsNotBefore t'.observed_start_time (time_of p v)) vs
    pub observed :
        (t'.observed_start_time ≡ t.observed_start_time)
        ⊎ Any (λ v. (is_point v ≡ true) × (t'.observed_start_time ≡ time_of p v)) vs

  -- What one line makes known of the start.
  record IsSeen (v : Json) (s s' : Option ℤ) : Type 0 where
    keeps : (x : Option ℤ) → IsNotBefore s x → IsNotBefore s' x
    not_before : is_point v ≡ true → IsNotBefore s' (time_of p v)
    observed : (s' ≡ s) ⊎ ((is_point v ≡ true) × (s' ≡ time_of p v))

  seen-IsSeen :
      (v : Json) (t : Totals) → IsSeen v t.observed_start_time (seen p v t).observed_start_time
  seen-IsSeen v t = elim (Bool-cases (is_point v)) [
    | inl e ↦ rw e (record {
      keeps = λ x h. earlier-IsNotBefore t.observed_start_time (time_of p v) x h;
      not_before = λ _. earlier-IsNotBefore_new t.observed_start_time (time_of p v);
      observed = elim (earlier_cases t.observed_start_time (time_of p v)) [
        | inl same ↦ inl same
        | inr new ↦ inr (e, new)
      ];
    })
    | inr e ↦ rw e (record {
      keeps = λ x h. h;
      not_before = λ is_one. absurd (false≢true (sym e ∙ is_one));
      observed = inl refl;
    })
  ]

  no_lines-IsTally : (t : Totals) → IsTally [] t t
  no_lines-IsTally t = record {
    durations = sym (append-nil t.all_durations_ms);
    successes = sym (append-nil t.success_durations_ms);
    answered = omega arith;
    requests = sym (add_zero t.total_reqs);
    failed = omega arith;
    dropped = sym (add_zero t.dropped);
    keeps = λ x h. h;
    not_before = tt;
    observed = inl refl;
  }

  later :
      (v : Json) (vs : List Json) (s s' s'' : Option ℤ)
      → IsSeen v s s'
      → (s'' ≡ s') ⊎ Any (λ w. (is_point w ≡ true) × (s'' ≡ time_of p w)) vs
      → (s'' ≡ s) ⊎ Any (λ w. (is_point w ≡ true) × (s'' ≡ time_of p w)) (v ∷ vs)
  later v vs s s' s'' k (inr found) = inr (inr found)
  later v vs s s' s'' k (inl same) = elim k.observed [
    | inl old ↦ inl (same ∙ old)
    | inr (is_one, new) ↦ inr (inl (is_one, same ∙ new))
  ]

  add-IsTally :
      (v : Json) (vs : List Json) (t t1 t' : Totals)
      → IsCounted (line p v) (seen p v t) t1
      → IsTally vs t1 t'
      → IsTally (v ∷ vs) t t'
  add-IsTally v vs t t1 t' c r =
      let s = subst (IsSeen v t.observed_start_time) (sym c.started) (seen-IsSeen v t) in
      record {
        durations =
            after_append t.all_durations_ms (line p v).durations (durations_of vs) c.durations
              r.durations;
        successes =
            after_append t.success_durations_ms (line p v).successes (successes_of vs) c.successes
              r.successes;
        answered = omega (arith, c.answered, r.answered);
        requests =
            after_add t.total_reqs (line p v).requests (requests_of vs) c.requests r.requests;
        failed = omega (arith, c.failed, r.failed);
        dropped = after_add t.dropped (line p v).dropped (dropped_of vs) c.dropped r.dropped;
        keeps = λ x h. r.keeps x (s.keeps x h);
        not_before = (λ is_one. r.keeps (time_of p v) (s.not_before is_one), r.not_before);
        observed =
            later v vs t.observed_start_time t1.observed_start_time t'.observed_start_time s
              r.observed;
      }

  pub add_lines-IsTally :
      (lines : List (Option Json)) (t t' : Totals)
      → add_lines p lines t ≡ ok t'
      → IsTally (points lines) t t'
  unfolding add_lines
  add_lines-IsTally [] t t' h =
      subst (IsTally [] t) (ok-injective {E = Error} _ _ h) (no_lines-IsTally t)
  add_lines-IsTally (none ∷ lines) t t' h = add_lines-IsTally lines t t' h
  add_lines-IsTally (some v ∷ lines) t t' h = on_ok (add_point p v t) _ h λ t1 here rest.
      add-IsTally v (points lines) t t1 t' (add_point-IsCounted p v t t1 here)
        (add_lines-IsTally lines t1 t' rest)

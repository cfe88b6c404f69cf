-- ===== src/Extract/Decisions/Counts.antt =====
-- The counts of `compute_phpa_metrics` (hack/analyze/extract.py), and its `Counter` of skip reasons.
use text.Mathlib.Text.{◌==◌ as str_eq}
use text.Mathlib.TextEquality.{eq_iff}
use predictive_hpa.Prelude.{
  ℕ, suc, ◌+◌, ◌≤◌, ◌≡◌, refl, ap, inl, inr, arith, List, [], ◌∷◌, map, if◌then◌else◌, length,
  count_if, Bool-cases, String, not, keep_if,
}
use predictive_hpa.Extract.Decisions.{Decision, unique, phpa_metrics, counter, count_one}
use predictive_hpa.Extract.Decisions.Unique.{first_of_each, unique-first_of_each}

pub counts : List (String × ℕ) → ℕ
counts [] = 0
counts ((r, n) ∷ rest) = n + counts rest

counts-count_one : (r : String) (cs : List (String × ℕ)) → counts (count_one r cs) ≡ counts cs + 1
unfolding counts count_one
counts-count_one r [] = refl
counts-count_one r ((s, n) ∷ rest) = ground (arith, counts-count_one r rest)

counts-counter :
    (cs : List (String × ℕ)) (rs : List String) → counts (counter cs rs) ≡ counts cs + length rs
unfolding counter
counts-counter cs [] = omega arith
counts-counter cs (r ∷ rs) =
    omega (arith, counts-counter (count_one r cs) rs, counts-count_one r cs)

-- What a counter says of a reason.
pub count_for : String → List (String × ℕ) → ℕ
count_for r [] = 0
count_for r ((s, n) ∷ rest) = (if str_eq r s then n else 0) + count_for r rest

count_for-count_one :
    (r x : String) (cs : List (String × ℕ))
    → count_for r (count_one x cs) ≡ count_for r cs + (if str_eq r x then 1 else 0)
unfolding count_for count_one
count_for-count_one r x [] = ground arith
count_for-count_one r x ((s, n) ∷ rest) = elim (Bool-cases (str_eq x s)) [
  | inl same ↦
      let equal : str_eq r x ≡ str_eq r s = ap (λ y. str_eq r y) ((eq_iff x s).0 same) in
      rw (same, equal) (ground arith)
  | inr differ ↦ rw (differ, count_for-count_one r x rest) (omega arith)
]

count_for-counter :
    (r : String) (cs : List (String × ℕ)) (rs : List String)
    → count_for r (counter cs rs) ≡ count_for r cs + count_if (λ x. str_eq r x) rs
unfolding counter
count_for-counter r cs [] = omega arith
count_for-counter r cs (x ∷ rs) =
    omega (arith, count_for-counter r (count_one x cs) rs, count_for-count_one r x cs)

length-first_of_each : (earlier ds : List Decision) → length (first_of_each earlier ds) ≤ length ds
unfolding first_of_each
length-first_of_each earlier [] = omega arith
length-first_of_each earlier (d ∷ ds) = ground (arith, length-first_of_each (d ∷ earlier) ds)

length-map : {A B : Type 0} (f : A → B) (xs : List A) → length (map f xs) ≡ length xs
length-map f [] = refl
length-map f (x ∷ xs) = ap suc (length-map f xs)

-- The entries of the log that are no updates of the Deployment.
abbrev pub reconciles : List Decision → List Decision
reconciles log = keep_if (λ d. not d.is_applied) log

-- The metrics are those of the reconciles that repeat the id of no earlier one: their number, which is
-- at most that of all reconciles, how many of them scaled and were stabilized, and, for every reason,
-- how many were skipped for it, where the counts of all reasons add up to their number.
pub phpa_metrics-first_of_each :
    (log : List Decision) (reason : String)
    → ((phpa_metrics log).unique_decisions ≡ length (first_of_each [] (reconciles log)))
      × ((phpa_metrics log).unique_decisions ≤ (phpa_metrics log).total_reconciles)
      × ((phpa_metrics log).scaled_true_count
          ≡ count_if (λ d. d.scaled) (first_of_each [] (reconciles log)))
      × ((phpa_metrics log).stabilized_true_count
          ≡ count_if (λ d. d.stabilized) (first_of_each [] (reconciles log)))
      × (count_for reason (phpa_metrics log).skip_reasons
          ≡ count_if
              (λ r. str_eq reason r)
              (map (λ d. d.skip_reason) (first_of_each [] (reconciles log))))
      × (counts (phpa_metrics log).skip_reasons ≡ (phpa_metrics log).unique_decisions)
unfolding phpa_metrics count_for counts
phpa_metrics-first_of_each log reason =
    let first = unique-first_of_each (reconciles log) in
    let reasons = map (λ d. d.skip_reason) (unique (reconciles log)) in
    (
      ap length first,
      rw first (length-first_of_each [] (reconciles log)),
      ap (count_if (λ d. d.scaled)) first,
      ap (count_if (λ d. d.stabilized)) first,
      omega (
        arith,
        count_for-counter reason [] reasons,
        ap (λ ds. count_if (λ r. str_eq reason r) (map (λ d. d.skip_reason) ds)) first,
      ),
      omega (
        arith,
        counts-counter [] reasons,
        length-map (λ d. d.skip_reason) (unique (reconciles log)),
      ),
    )

-- ===== src/Cadence/Queries/Counts.antt =====
-- What the totals of `query_totals` (hack/analyze/cadence.py) count, row by row.
use mathlib.Core.Path.{subst}
use predictive_hpa.Prelude.{
  ℕ, ◌+◌, ◌≡◌, refl, ap, ◌∙◌, arith, Bool, true, ◌&&◌, List, [], ◌∷◌, ◌++◌, map, length, sum,
  if◌then◌else◌, keep_if, count_if, count_if-append, sum_by, leb, ltb, ok, on_ok, ok-injective,
}
use predictive_hpa.Cadence.Queries.{
  Query, Row, Refused, rate, timestamp, same_kind, Total, total, QueryTotals, query_totals,
  all_queries, observation_queries,
}
use predictive_hpa.Cadence.Queries.Totals.{IsConsistent, query_totals-Sound}

-- The receipts of the rows, one list for each.
abbrev pub AreReceipts : List Row → List (List Query) → Type 0
AreReceipts [] [] = Unit
AreReceipts (row ∷ rows) (qs ∷ rest) = (observation_queries row ≡ ok qs) × AreReceipts rows rest
AreReceipts _ _ = ⊥

-- The sum over the rows of what is counted in one of them.
abbrev pub over_rows : (Query → Bool) → List (List Query) → ℕ
over_rows p rows = sum_by (count_if p) rows

-- The total is that of the requests that pass the test.
pub record IsCount (within : Query → Bool) (rows : List (List Query)) (t : Total) : Type 0 where
  pub requests : t.http_requests ≡ over_rows within rows
  pub errors : t.errors ≡ over_rows (λ q. within q && q.failed) rows
  pub rates : t.rate_requests ≡ over_rows (λ q. within q && same_kind q.kind rate) rows
  pub timestamps :
      t.timestamp_requests ≡ over_rows (λ q. within q && same_kind q.kind timestamp) rows
  pub duration : t.duration ≡ sum_by (sum_by (λ q. if within q then q.duration else 0)) rows

abbrev flat : List (List Query) → List Query
flat [] = []
flat (qs ∷ rest) = qs ++ flat rest

count_if-flat :
    (p : Query → Bool) (rows : List (List Query)) → count_if p (flat rows) ≡ over_rows p rows
count_if-flat p [] = refl
count_if-flat p (qs ∷ rest) = omega (arith, count_if-append p qs (flat rest), count_if-flat p rest)

sum_by-append :
    (f : Query → ℕ) (xs ys : List Query) → sum_by f (xs ++ ys) ≡ sum_by f xs + sum_by f ys
sum_by-append f [] ys = omega arith
sum_by-append f (x ∷ xs) ys = omega (arith, sum_by-append f xs ys)

sum_by-flat :
    (f : Query → ℕ) (rows : List (List Query)) → sum_by f (flat rows) ≡ sum_by (sum_by f) rows
sum_by-flat f [] = refl
sum_by-flat f (qs ∷ rest) = omega (arith, sum_by-append f qs (flat rest), sum_by-flat f rest)

count_if-kept :
    (p w : Query → Bool) (qs : List Query)
    → count_if p (keep_if w qs) ≡ count_if (λ q. w q && p q) qs
count_if-kept p w [] = refl
count_if-kept p w (q ∷ qs) = ground (arith, count_if-kept p w qs)

length-kept : (w : Query → Bool) (qs : List Query) → length (keep_if w qs) ≡ count_if w qs
length-kept w [] = refl
length-kept w (q ∷ qs) = ground (arith, length-kept w qs)

durations-kept :
    (w : Query → Bool) (qs : List Query)
    → sum (map (λ q. q.duration) (keep_if w qs)) ≡ sum_by (λ q. if w q then q.duration else 0) qs
durations-kept w [] = refl
durations-kept w (q ∷ qs) = ground (arith, durations-kept w qs)

total-IsCount :
    (w : Query → Bool) (rows : List (List Query)) → IsCount w rows (total (keep_if w (flat rows)))
unfolding total
total-IsCount w rows =
    let counted =
      λ (p : Query → Bool). count_if-kept p w (flat rows) ∙ count_if-flat (λ q. w q && p q) rows in
    record {
      requests = length-kept w (flat rows) ∙ count_if-flat w rows;
      errors = counted (λ q. q.failed);
      rates = counted (λ q. same_kind q.kind rate);
      timestamps = counted (λ q. same_kind q.kind timestamp);
      duration =
          durations-kept w (flat rows) ∙ sum_by-flat (λ q. if w q then q.duration else 0) rows;
    }

keep_all : (qs : List Query) → keep_if (λ _. true) qs ≡ qs
keep_all [] = refl
keep_all (q ∷ qs) = ap (λ l. q ∷ l) (keep_all qs)

all_queries-AreReceipts :
    (rows : List Row) {qs : List Query}
    → all_queries rows ≡ ok qs
    → (lists : List (List Query)) × AreReceipts rows lists × (flat lists ≡ qs)
unfolding all_queries
all_queries-AreReceipts [] h = ([], tt, ok-injective {E = Refused} _ _ h)
all_queries-AreReceipts (row ∷ rows) h = on_ok (observation_queries row) _ h λ qs e h1.
    on_ok (all_queries rows) _ h1 λ rest e' h2.
      let (lists, are, same) = all_queries-AreReceipts rows e' in
      (qs ∷ lists, (e, are), ap (λ l. qs ++ l) same ∙ ok-injective {E = Refused} _ _ h2)

-- The totals against the receipts of the rows.
pub record AreCounts (rows : List Row) (onset end : ℕ) (t : QueryTotals) : Type 0 where
  pub receipts : List (List Query)
  pub of_rows : AreReceipts rows receipts
  pub capture : IsCount (λ _. true) receipts t.entire_capture
  pub window : IsCount (λ q. leb onset q.started && ltb q.started end) receipts t.scenario_window
  pub kinds : IsConsistent t.entire_capture × IsConsistent t.scenario_window

-- When the totals of the observations are computed, those of the capture sum over the rows the number
-- of their HTTP requests, of errors and of either kind, and their durations; those of the window do
-- so for the requests that start at onset or later and before the end; and in both every request is
-- either a rate or a timestamp request.
pub query_totals-AreCounts :
    (rows : List Row) (onset end : ℕ) (t : QueryTotals)
    → query_totals rows onset end ≡ ok t
    → AreCounts rows onset end t
unfolding query_totals
query_totals-AreCounts rows onset end t h =
    let (whole, part, _) = query_totals-Sound rows onset end t h in
    on_ok (all_queries rows) _ h λ qs e h1.
      let (lists, are, same) = all_queries-AreReceipts rows e in
      let window = λ (q : Query). leb onset q.started && ltb q.started end in
      let t_eq = ok-injective {E = Refused} _ _ h1 in
      record {
        receipts = lists;
        of_rows = are;
        capture =
            subst (λ (t : QueryTotals). IsCount (λ _. true) lists t.entire_capture) t_eq
              (subst (λ l. IsCount (λ _. true) lists (total l)) (keep_all (flat lists) ∙ same)
                (total-IsCount (λ _. true) lists));
        window =
            subst (λ (t : QueryTotals). IsCount window lists t.scenario_window) t_eq
              (subst (λ l. IsCount window lists (total (keep_if window l))) same
                (total-IsCount window lists));
        kinds = (whole, part);
      }

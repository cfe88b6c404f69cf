-- ===== src/Cadence/Queries/Totals.antt =====
-- The totals of `query_totals` (hack/analyze/cadence.py): those of the window against the capture's.
use mathlib.Core.Path.{subst}
use predictive_hpa.Prelude.{
  ℕ, ◌+◌, ◌≤◌, ◌≡◌, refl, arith, Bool, false, ◌&&◌, List, [], ◌∷◌, map, length, sum, if◌then◌else◌,
  keep_if, count_if, count_if-le-length, leb, ltb, All, All-keep, All-append, ok, on_ok,
  ok-injective,
}
use predictive_hpa.Prelude.Inversion.{◌>>=◌, returned, not_raised}
use predictive_hpa.Cadence.Queries.{
  Query, Row, Refused, QueryKind, rate, timestamp, other_kind, same_kind, Total, total, QueryTotals,
  query_totals, all_queries, observation_queries, listed, value, check_receipts, lacks_receipts,
  lacks_success,
}
use predictive_hpa.Cadence.Queries.Order.{Ordered, check_receipts-Ordered}

-- The totals of some of the queries that others include.
abbrev pub Within : Total → Total → Type 0
Within a b =
    (a.http_requests ≤ b.http_requests)
    × (a.duration ≤ b.duration)
    × (a.errors ≤ b.errors)
    × (a.rate_requests ≤ b.rate_requests)
    × (a.timestamp_requests ≤ b.timestamp_requests)

-- Every request is a rate or a timestamp request, and at most all are errors.
abbrev pub IsConsistent : Total → Type 0
IsConsistent t =
    (t.http_requests ≡ t.rate_requests + t.timestamp_requests) × (t.errors ≤ t.http_requests)

count_if-keep_if :
    (p q : Query → Bool) (qs : List Query) → count_if p (keep_if q qs) ≤ count_if p qs
count_if-keep_if p q [] = omega arith
count_if-keep_if p q (x ∷ qs) = ground (arith, count_if-keep_if p q qs)

length-keep_if : (q : Query → Bool) (qs : List Query) → length (keep_if q qs) ≤ length qs
length-keep_if q [] = omega arith
length-keep_if q (x ∷ qs) = ground (arith, length-keep_if q qs)

durations-keep_if :
    (q : Query → Bool) (qs : List Query)
    → sum (map (λ q. q.duration) (keep_if q qs)) ≤ sum (map (λ q. q.duration) qs)
durations-keep_if q [] = omega arith
durations-keep_if q (x ∷ qs) = ground (arith, durations-keep_if q qs)

abbrev Known : Query → Type 0
Known q = same_kind q.kind other_kind ≡ false

Ordered-Known : (previous end : ℕ) (qs : List Query) → Ordered previous end qs → All Known qs
Ordered-Known previous end [] h = tt
Ordered-Known previous end (q ∷ qs) ((x, y, z, u, w, k), h) = (k, Ordered-Known q.finished end qs h)

abbrev one_of : Bool → ℕ
one_of b = if b then 1 else 0

one_kind :
    (k : QueryKind)
    → same_kind k other_kind ≡ false
    → one_of (same_kind k rate) + one_of (same_kind k timestamp) ≡ 1
one_kind rate h = refl
one_kind timestamp h = refl
one_kind other_kind h = cc

kinds :
    (qs : List Query)
    → All Known qs
    → length qs
      ≡ count_if (λ q. same_kind q.kind rate) qs + count_if (λ q. same_kind q.kind timestamp) qs
kinds [] h = refl
kinds (q ∷ qs) (k, h) = omega (arith, kinds qs h, one_kind q.kind k)

observation_queries-Known :
    (row : Row) {qs : List Query} → observation_queries row ≡ ok qs → All Known qs
unfolding observation_queries
observation_queries-Known row h = do
  (rs, e1, h1) ← returned (listed row.queries) _ h
  (begin, e2, h2) ← returned (value row.started_at) _ h1
  (end, e3, h3) ← returned (value row.finished_at) _ h2
  (result, e4, h4) ← returned (check_receipts begin end rs) _ h3
  (t, h5) ← not_raised (row.is_success && lacks_receipts result) lacks_success _ h4
  subst (All Known) (ok-injective {E = Refused} _ _ h5)
      (Ordered-Known begin end result (check_receipts-Ordered begin end rs e4))

all_queries-Known : (rows : List Row) {qs : List Query} → all_queries rows ≡ ok qs → All Known qs
unfolding all_queries
all_queries-Known [] h = subst (All Known) (ok-injective {E = Refused} _ _ h) tt
all_queries-Known (row ∷ rows) h = on_ok (observation_queries row) _ h λ qs e h1.
    on_ok (all_queries rows) _ h1 λ rest e' h2.
      subst (All Known) (ok-injective {E = Refused} _ _ h2)
        (All-append Known qs rest (observation_queries-Known row e) (all_queries-Known rows e'))

total-IsConsistent : (qs : List Query) → All Known qs → IsConsistent (total qs)
unfolding total
total-IsConsistent qs k = (kinds qs k, count_if-le-length (λ q. q.failed) qs)

total-Within : (p : Query → Bool) (qs : List Query) → Within (total (keep_if p qs)) (total qs)
unfolding total
total-Within p qs = (
  length-keep_if p qs,
  durations-keep_if p qs,
  count_if-keep_if (λ q. q.failed) p qs,
  count_if-keep_if (λ q. same_kind q.kind rate) p qs,
  count_if-keep_if (λ q. same_kind q.kind timestamp) p qs,
)

abbrev pub Sound : QueryTotals → Type 0
Sound t =
    IsConsistent t.entire_capture
    × IsConsistent t.scenario_window
    × Within t.scenario_window t.entire_capture

-- When the totals of the observations are computed, every request of the capture and of the window is
-- either a rate or a timestamp request, no more of them are errors than there are, and each total of
-- the window is at most that of the capture.
pub query_totals-Sound :
    (rows : List Row) (onset end : ℕ) (t : QueryTotals)
    → query_totals rows onset end ≡ ok t
    → Sound t
unfolding query_totals
query_totals-Sound rows onset end t h = on_ok (all_queries rows) _ h λ qs e h1.
    let known = all_queries-Known rows e in
    let window = λ (q : Query). leb onset q.started && ltb q.started end in
    subst Sound (ok-injective {E = Refused} _ _ h1) (
      total-IsConsistent qs known,
      total-IsConsistent (keep_if window qs) (All-keep Known window qs known),
      total-Within window qs,
    )

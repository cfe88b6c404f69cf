-- ===== src/Cadence/Queries.antt =====
-- `observation_queries` and `query_totals` in hack/analyze/cadence.py: the HTTP receipts of the
-- observations. Times and durations are microseconds.
pub mod Order
pub mod Totals
pub mod Counts
mod Tests
use text.Mathlib.Text.{◌==◌ as str_eq}
use predictive_hpa.Prelude.{
  ℕ, ◌+◌, ◌-◌, Bool, true, false, ◌||◌, ◌&&◌, not, Option, none, some, List, [], ◌∷◌, ◌++◌, map,
  length, sum, ltb, leb, ◌==◌, if◌then◌else◌, keep_if, count_if, get_last?, Result, ok, err, ◌>>=◌,
  ◌>>◌, raise_if, String,
}
use predictive_hpa.Prelude.Int.{ℤ, pos, ltb_ℤ, leb_ℤ, eq_ℤ}

pub data QueryKind : Type 0 where
  rate timestamp other_kind : QueryKind

-- `query.get("error")`
pub data ErrorField : Type 0 where
  no_error : ErrorField
  message : String → ErrorField
  no_text : ErrorField

-- A receipt as it is read: a time or duration is none where `timestamp` or `number` raises, the status
-- is none where it is no int, and `is_method` says that the method is GET or POST.
pub record Receipt : Type 0 where
  pub started_at : Option ℕ
  pub finished_at : Option ℕ
  pub duration : Option ℕ
  pub kind : QueryKind
  pub is_method : Bool
  pub status : Option ℤ
  pub error : ErrorField

-- An observation; `queries` is none where it is no list.
pub record Row : Type 0 where
  pub started_at : Option ℕ
  pub finished_at : Option ℕ
  pub is_success : Bool
  pub queries : Option (List Receipt)

pub record Query : Type 0 where
  pub started : ℕ
  pub finished : ℕ
  pub duration : ℕ
  pub kind : QueryKind
  pub failed : Bool
  pub status : ℤ

pub data Refused : Type 0 where
  no_queries invalid_number interval_disagrees invalid_receipt lacks_success : Refused

abbrev pub value {ℓ} : {A : Type ℓ} → Option A → Result Refused A
value none = err invalid_number
value (some t) = ok t

abbrev pub same_kind : QueryKind → QueryKind → Bool
same_kind rate rate = true
same_kind timestamp timestamp = true
same_kind other_kind other_kind = true
same_kind _ _ = false

-- The test on the times, with a millisecond of tolerance, and two for the duration.
abbrev pub disagrees : ℕ → ℕ → ℕ → ℕ → ℕ → Bool
disagrees previous end start finish duration =
    ltb (start + 1000) previous
    || ltb finish start
    || ltb (end + 1000) finish
    || ltb (finish - start + 2000) duration
    || ltb (duration + 2000) (finish - start)

abbrev pub is_text : ErrorField → Bool
is_text no_text = false
is_text _ = true

abbrev pub has_error : ErrorField → Bool
has_error (message s) = not (str_eq s "")
has_error _ = false

-- `0 <= status <= 599`, and `200 <= status < 300`
abbrev pub is_status : Option ℤ → Bool
is_status none = false
is_status (some n) = leb_ℤ (pos 0) n && leb_ℤ n (pos 599)

abbrev pub is_success_status : ℤ → Bool
is_success_status n = leb_ℤ (pos 200) n && ltb_ℤ n (pos 300)

abbrev pub is_invalid : Receipt → Bool
is_invalid q =
    same_kind q.kind other_kind
    || not q.is_method
    || not (is_status q.status)
    || not (is_text q.error)

-- One round of the loop over the receipts.
pub check_receipt : ℕ → ℕ → Receipt → Result Refused Query
check_receipt previous end q = do
  start ← value q.started_at
  finish ← value q.finished_at
  duration ← value q.duration
  raise_if (disagrees previous end start finish duration) interval_disagrees
  raise_if (is_invalid q) invalid_receipt
  status ← value q.status
  ok (record {
    started = start;
    finished = finish;
    duration = duration;
    kind = q.kind;
    failed = has_error q.error || not (is_success_status status);
    status = status;
  })

pub check_receipts : ℕ → ℕ → List Receipt → Result Refused (List Query)
unfolding check_receipt
check_receipts previous end [] = ok []
check_receipts previous end (q ∷ qs) = do
  query ← check_receipt previous end q
  rest ← check_receipts query.finished end qs
  ok (query ∷ rest)

abbrev pub of_kind : QueryKind → List Query → List Query
of_kind k = keep_if (λ q. same_kind q.kind k)

-- `not xs or xs[-1]["failed"]`
abbrev pub last_failed : Option Query → Bool
last_failed none = true
last_failed (some q) = q.failed

-- `==` on queries and on lists of them
abbrev pub eq_query : Query → Query → Bool
eq_query a b =
    a.started == b.started
    && a.finished == b.finished
    && a.duration == b.duration
    && same_kind a.kind b.kind
    && (if a.failed then b.failed else not b.failed)
    && eq_ℤ a.status b.status

pub eq_queries : List Query → List Query → Bool
eq_queries [] [] = true
eq_queries (a ∷ xs) (b ∷ ys) = eq_query a b && eq_queries xs ys
eq_queries _ _ = false

-- The test for an accepted observation.
pub lacks_receipts : List Query → Bool
unfolding eq_queries
lacks_receipts result =
    last_failed (get_last? (of_kind rate result))
    || last_failed (get_last? (of_kind timestamp result))
    || not (eq_queries result (of_kind rate result ++ of_kind timestamp result))

abbrev listed : Option (List Receipt) → Result Refused (List Receipt)
listed none = err no_queries
listed (some qs) = ok qs

pub observation_queries : Row → Result Refused (List Query)
unfolding check_receipts lacks_receipts
observation_queries row = do
  queries ← listed row.queries
  begin ← value row.started_at
  end ← value row.finished_at
  result ← check_receipts begin end queries
  raise_if (row.is_success && lacks_receipts result) lacks_success
  ok result

pub record Total : Type 0 where
  pub http_requests : ℕ
  pub duration : ℕ
  pub errors : ℕ
  pub rate_requests : ℕ
  pub timestamp_requests : ℕ

pub total : List Query → Total
total selected = record {
  http_requests = length selected;
  duration = sum (map (λ q. q.duration) selected);
  errors = count_if (λ q. q.failed) selected;
  rate_requests = count_if (λ q. same_kind q.kind rate) selected;
  timestamp_requests = count_if (λ q. same_kind q.kind timestamp) selected;
}

-- `[query for row in rows for query in observation_queries(row)]`
pub all_queries : List Row → Result Refused (List Query)
unfolding observation_queries
all_queries [] = ok []
all_queries (row ∷ rows) = do
  queries ← observation_queries row
  rest ← all_queries rows
  ok (queries ++ rest)

pub record QueryTotals : Type 0 where
  pub scenario_window : Total
  pub entire_capture : Total

pub query_totals : List Row → ℕ → ℕ → Result Refused QueryTotals
unfolding all_queries total
query_totals rows onset end = do
  queries ← all_queries rows
  ok (record {
    scenario_window = total (keep_if (λ q. leb onset q.started && ltb q.started end) queries);
    entire_capture = total queries;
  })

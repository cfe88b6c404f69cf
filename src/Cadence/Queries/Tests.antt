-- ===== src/Cadence/Queries/Tests.antt =====
-- The HTTP receipts of two observations (hack/analyze/cadence.py), and the theorems there.
use predictive_hpa.Prelude.{ℕ, ◌+◌, ◌≡◌, ◌⊎◌, refl, true, false, some, List, [], ◌∷◌, ok, err}
use predictive_hpa.Prelude.Int.{pos}
use predictive_hpa.Cadence.Queries.{
  QueryKind, rate, timestamp, Receipt, no_error, Row, Query, QueryTotals, lacks_success,
  observation_queries, check_receipts, check_receipt, lacks_receipts, eq_queries, query_totals,
  all_queries, total,
}
use predictive_hpa.Cadence.Queries.Order.{Ordered, IsAccepted, observation_queries-Ordered}
use predictive_hpa.Cadence.Queries.Counts.{AreCounts, query_totals-AreCounts}

abbrev receipt : ℕ → QueryKind → ℕ → Receipt
receipt t kind status = record {
  started_at = some t;
  finished_at = some (1 + t);
  duration = some 3;
  kind = kind;
  is_method = true;
  status = some (pos status);
  error = no_error;
}

abbrev query : ℕ → QueryKind → ℕ → Query
query t kind status = record {
  started = t;
  finished = 1 + t;
  duration = 3;
  kind = kind;
  failed = false;
  status = pos status;
}

-- A rate query that is tried again after a 405.
abbrev first : Row
first = record {
  started_at = some 20000;
  finished_at = some 30000;
  is_success = true;
  queries =
      some (receipt 21000 rate 405 ∷ receipt 22000 rate 200 ∷ receipt 23000 timestamp 200 ∷ []);
}

abbrev failed_query : Query
failed_query = record (query 21000 rate 405) { failed = true }

abbrev queries : List Query
queries = failed_query ∷ query 22000 rate 200 ∷ query 23000 timestamp 200 ∷ []

first_run : observation_queries first ≡ ok queries
unfolding observation_queries check_receipts check_receipt lacks_receipts eq_queries
first_run = refl

observation_queries-Ordered_example :
    Ordered 20000 30000 queries × ((first.is_success ≡ false) ⊎ IsAccepted queries)
observation_queries-Ordered_example =
    observation_queries-Ordered first 20000 30000 queries refl refl first_run

-- Two of the three requests start in the window.
abbrev totals : QueryTotals
totals = record {
  scenario_window = record {
    http_requests = 2;
    duration = 6;
    errors = 0;
    rate_requests = 1;
    timestamp_requests = 1;
  };
  entire_capture = record {
    http_requests = 3;
    duration = 9;
    errors = 1;
    rate_requests = 2;
    timestamp_requests = 1;
  };
}

totals_run : query_totals (first ∷ []) 22000 40000 ≡ ok totals
unfolding query_totals all_queries total observation_queries check_receipts check_receipt
    lacks_receipts eq_queries
totals_run = refl

query_totals-AreCounts_example : AreCounts (first ∷ []) 22000 40000 totals
query_totals-AreCounts_example = query_totals-AreCounts (first ∷ []) 22000 40000 totals totals_run

-- An accepted observation without a timestamp query is refused.
lacking :
    observation_queries (record first { queries = some (receipt 21000 rate 200 ∷ []) })
    ≡ err lacks_success
unfolding observation_queries check_receipts check_receipt lacks_receipts eq_queries
lacking = refl

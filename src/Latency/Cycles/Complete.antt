-- ===== src/Latency/Cycles/Complete.antt =====
-- hack/analyze/latency.py, controller_cycles: the cycles that are returned.
use predictive_hpa.Prelude.{
  ℕ, ◌+◌, String, Bool, ◌≡◌, refl, ap, sym, ◌∙◌, Option, List, [], ◌∷◌, sum_by, ok, on_ok,
  ok-injective, All, All-map, arith,
}
use predictive_hpa.Prelude.Sorting
use predictive_hpa.Prelude.Sorting.{sort, sort-All, sort-IsSorted, sort-sum_by, sort-perm}
use predictive_hpa.Json.{Json, Error}
use predictive_hpa.Latency.Values.{Clock, epoch}
use predictive_hpa.Latency.Cycles.{
  Event, Cycle, collect, Timed, less_time, cycles_of, timed, controller_cycles,
}
use mathlib.Core.List.{Perm}
use mathlib.Core.Path.{subst}
use predictive_hpa.Latency.Cycles.Gathered.{
  Test, row_count, total_rows, HasDistinctKeys, IsCycle, told, collect-Continues,
}

timed_rows : Test → Timed → ℕ
timed_rows p t = row_count p t.1

total_rows-cycles_of :
    (p : Test) (ts : List Timed) → total_rows p (cycles_of ts) ≡ sum_by (timed_rows p) ts
unfolding timed_rows
total_rows-cycles_of p [] = refl
total_rows-cycles_of p (t ∷ ts) = ap (λ (n : ℕ). row_count p t.1 + n) (total_rows-cycles_of p ts)

cycles_of-All : (ts : List Timed) → All (λ t. IsCycle t.1) ts → All IsCycle (cycles_of ts)
cycles_of-All [] a = tt
cycles_of-All (t ∷ ts) a = (a.0, cycles_of-All ts a.1)

module _ (clock : Clock) where
  -- The time by which the cycle is sorted is that of its start.
  abbrev pub IsTimed : Timed → Type 0
  IsTimed t = epoch clock t.1.started_at ≡ ok t.0

  timed-cycles_of : (cs : List Cycle) (ts : List Timed) → timed clock cs ≡ ok ts → cycles_of ts ≡ cs
  unfolding timed
  timed-cycles_of [] ts h = ap cycles_of (sym (ok-injective {E = Error} _ _ h))
  timed-cycles_of (c ∷ cs) ts h = on_ok (epoch clock c.started_at) _ h λ seconds e h1.
      on_ok (timed clock cs) _ h1 λ rest found h2.
        ap cycles_of (sym (ok-injective {E = Error} _ _ h2))
        ∙ ap (λ l. c ∷ l) (timed-cycles_of cs rest found)

  timed-All :
      (cs : List Cycle) (ts : List Timed)
      → timed clock cs ≡ ok ts
      → All IsCycle cs
      → All (λ t. IsTimed t × IsCycle t.1) ts
  unfolding timed
  timed-All [] ts h a =
      subst (All (λ t. IsTimed t × IsCycle t.1)) (ok-injective {E = Error} _ _ h) tt
  timed-All (c ∷ cs) ts h a = on_ok (epoch clock c.started_at) _ h λ seconds e h1.
      on_ok (timed clock cs) _ h1 λ rest found h2.
        subst (All (λ t. IsTimed t × IsCycle t.1)) (ok-injective {E = Error} _ _ h2)
          ((e, a.0), timed-All cs rest found a.1)

  module _ (parse_json : String → Option Json) (ignore : Bool) where
    -- The cycles against the lines of the log: by any test, as many rows of the cycles pass it as
    -- rows of the lines, so that each row stands in them as often as in the log.
    pub record IsReadFrom (lines : List String) (cs : List Cycle) : Type 0 where
      pub complete : (p : Event × Json → Bool) → total_rows p cs ≡ told parse_json ignore lines p
      pub cycles : All IsCycle cs
      pub starts : List Timed
      pub listed : cycles_of starts ≡ cs
      pub at_starts : All IsTimed starts
      pub ordered : Sorting.IsSorted less_time starts
      pub gathered : List Timed
      pub rearranged : Perm starts gathered
      pub distinct : HasDistinctKeys (cycles_of gathered)

    -- When controller_cycles returns, its cycles hold the rows of the log: by any test on rows, as
    -- many of theirs pass it as of those that the lines tell of. Each row is in a cycle with its
    -- start and identifier, or with values that Python finds equal; no cycle has two rows of one
    -- event, nor the start and identifier of a cycle that was gathered before it; and they are in
    -- order of the times of their starts.
    pub controller_cycles-IsReadFrom :
        (lines : List String) (cs : List Cycle)
        → controller_cycles clock parse_json ignore lines ≡ ok cs
        → IsReadFrom lines cs
    unfolding controller_cycles
    controller_cycles-IsReadFrom lines cs h =
        on_ok (collect parse_json ignore lines []) _ h λ found read h1.
          on_ok (timed clock found) _ h1 λ keyed at h2.
            on_ok (sort less_time keyed) _ h2 λ ts sorted h3.
              let grown = collect-Continues parse_json ignore lines [] found read in
              let all = timed-All found keyed at (grown.cycles tt) in
              let whole = sort-All less_time (λ t. IsTimed t × IsCycle t.1) keyed ts sorted all in
              let same = timed-cycles_of found keyed at in
              subst (IsReadFrom lines) (ok-injective {E = Error} _ _ h3) (record {
                complete = λ p.
                    total_rows-cycles_of p ts
                    ∙ (sort-sum_by less_time (timed_rows p) keyed ts sorted
                        ∙ (sym (total_rows-cycles_of p keyed)
                            ∙ (ap (total_rows p) same ∙ omega (arith, grown.more p))));
                cycles = cycles_of-All ts (All-map ts (λ t x. x.1) whole);
                starts = ts;
                listed = refl;
                at_starts = All-map ts (λ t x. x.0) whole;
                ordered = sort-IsSorted less_time keyed ts sorted;
                gathered = keyed;
                rearranged = sort-perm less_time keyed ts sorted;
                distinct = subst HasDistinctKeys (sym same) (grown.keys tt);
              })

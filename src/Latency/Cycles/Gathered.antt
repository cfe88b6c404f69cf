-- ===== src/Latency/Cycles/Gathered.antt =====
-- hack/analyze/latency.py, controller_cycles: how the rows of a log are gathered into cycles.
use predictive_hpa.Prelude.{
  ℕ, ◌+◌, ◌≤◌, String, Bool, true, false, not, ◌&&◌, ◌≡◌, ◌⊎◌, inl, inr, refl, Option, some, none,
  List, [], ◌∷◌, count_if, count_if-append, count_if-eq-zero, sum_by, Result, ok, err, on_ok,
  on_pass, ok-injective, if◌then◌else◌, All, All-append, Bool-cases, arith,
}
use predictive_hpa.Json.{Json, get, item, hashable, Error}
use predictive_hpa.Latency.Cycles.{
  Event, query, decision, scale, finish, same_event, Cycle, Row, read_line, has_key, has_event,
  with_event, add_row, add_event, add_if, collect,
}
use mathlib.Core.Path.{subst}

-- A test on the rows, by which they are counted.
abbrev pub Test : Type 0
Test = Event × Json → Bool

abbrev pub row_count : Test → Cycle → ℕ
row_count p c = count_if p c.rows

-- The rows of all cycles that pass the test.
abbrev pub total_rows : (Event × Json → Bool) → List Cycle → ℕ
total_rows p cs = sum_by (row_count p) cs

-- No cycle has the key of an earlier one.
abbrev pub HasDistinctKeys : List Cycle → Type 0
HasDistinctKeys [] = Unit
HasDistinctKeys (c ∷ cs) =
    All (λ (d : Cycle). has_key d.reconcile_id d.started_at c ≡ false) cs × HasDistinctKeys cs

-- No event has two rows.
abbrev pub HasDistinctEvents : Cycle → Type 0
HasDistinctEvents c = (e : Event) → count_if (λ (r : Event × Json). same_event r.0 e) c.rows ≤ 1

-- The row states the start and the identifier of the cycle, or values that Python finds equal.
abbrev pub BelongsTo : Cycle → Event × Json → Type 0
BelongsTo c r =
    (start : Json) × (id : Json) × (item "reconcileStartedAt" r.1 ≡ ok start)
    × (get "reconcileID" r.1 ≡ ok id)
    × (((c.started_at ≡ start) × (c.reconcile_id ≡ id)) ⊎ (has_key id start c ≡ true))

abbrev pub IsCycle : Cycle → Type 0
IsCycle c = HasDistinctEvents c × All (BelongsTo c) c.rows

same_event-eq : (d e : Event) → same_event d e ≡ true → d ≡ e
same_event-eq query query h = refl
same_event-eq decision decision h = refl
same_event-eq scale scale h = refl
same_event-eq finish finish h = refl
same_event-eq _ _ h = cc

one-HasDistinctEvents :
    (id start row : Json) (event : Event)
    → HasDistinctEvents (record { reconcile_id = id; started_at = start; rows = (event, row) ∷ [] })
one-HasDistinctEvents id start row event e = ground arith

with_event-HasDistinctEvents :
    (event : Event) (row : Json) (c : Cycle)
    → has_event event c ≡ false
    → HasDistinctEvents c
    → HasDistinctEvents (with_event event row c)
with_event-HasDistinctEvents event row c fresh h e =
    let p = λ (d : Event) (r : Event × Json). same_event r.0 d in
    rw (count_if-append (p e) c.rows ((event, row) ∷ [])) (elim (Bool-cases (same_event event e)) [
      | inl same ↦
          let unseen : count_if (p e) c.rows ≡ 0 =
            subst (λ d. count_if (p d) c.rows ≡ 0) (same_event-eq event e same)
              (count_if-eq-zero (p event) c.rows fresh) in
          rw (unseen, same) (omega arith)
      | inr other ↦ rw other (omega (arith, h e))
    ])

-- What one row adds: itself, to a cycle of its own or to one that has none of its event.
record IsAdded (r : Event × Json) (cs cs' : List Cycle) : Type 0 where
  one_more : (p : Test) → total_rows p cs' ≡ (if p r then 1 else 0) + total_rows p cs
  cycles : All IsCycle cs → All IsCycle cs'
  keys : HasDistinctKeys cs → HasDistinctKeys cs'

-- A row adds no key but its own.
add_row-keys :
    (K : Json → Json → Type 0) (id start : Json) (event : Event) (row : Json) (cs cs' : List Cycle)
    → add_row id start event row cs ≡ ok cs'
    → K id start
    → All (λ (c : Cycle). K c.reconcile_id c.started_at) cs
    → All (λ (c : Cycle). K c.reconcile_id c.started_at) cs'
unfolding add_row
add_row-keys K id start event row [] cs' h k a =
    subst (All (λ (c : Cycle). K c.reconcile_id c.started_at)) (ok-injective {E = Error} _ _ h)
      (k, tt)
add_row-keys K id start event row (c ∷ cs) cs' h k a = elim (Bool-cases (has_key id start c)) [
  | inl here ↦ on_pass (has_event event c) _ _ (rw here at h) λ fresh h'.
      subst (All (λ (c : Cycle). K c.reconcile_id c.started_at)) (ok-injective {E = Error} _ _ h') a
  | inr later ↦ on_ok (add_row id start event row cs) _ (rw later at h) λ rest found h'.
      subst (All (λ (c : Cycle). K c.reconcile_id c.started_at)) (ok-injective {E = Error} _ _ h')
        (a.0, add_row-keys K id start event row cs rest found k a.1)
]

add_row-IsAdded :
    (id start : Json) (event : Event) (row : Json) (cs cs' : List Cycle)
    → item "reconcileStartedAt" row ≡ ok start
    → get "reconcileID" row ≡ ok id
    → add_row id start event row cs ≡ ok cs'
    → IsAdded (event, row) cs cs'
unfolding add_row
add_row-IsAdded id start event row [] cs' s i h =
    subst (IsAdded (event, row) []) (ok-injective {E = Error} _ _ h) (record {
      one_more = λ p. omega arith;
      cycles = λ _. (
        (one-HasDistinctEvents id start row event, ((start, id, s, i, inl (refl, refl)), tt)),
        tt,
      );
      keys = λ _. (tt, tt);
    })
add_row-IsAdded id start event row (c ∷ cs) cs' s i h = elim (Bool-cases (has_key id start c)) [
  | inl here ↦ on_pass (has_event event c) _ _ (rw here at h) λ fresh h'.
      subst (IsAdded (event, row) (c ∷ cs)) (ok-injective {E = Error} _ _ h') (record {
        one_more = λ p. omega (arith, count_if-append p c.rows ((event, row) ∷ []));
        cycles = λ a. (
          (
            with_event-HasDistinctEvents event row c fresh a.0.0,
            All-append (BelongsTo (with_event event row c)) c.rows ((event, row) ∷ []) a.0.1
                ((start, id, s, i, inr here), tt),
          ),
          a.1,
        );
        keys = λ a. a;
      })
  | inr later ↦ on_ok (add_row id start event row cs) _ (rw later at h) λ rest found h'.
      let r = add_row-IsAdded id start event row cs rest s i found in
      subst (IsAdded (event, row) (c ∷ cs)) (ok-injective {E = Error} _ _ h') (record {
        one_more = λ p. omega (arith, r.one_more p);
        cycles = λ a. (a.0, r.cycles a.1);
        keys = λ a. (
          add_row-keys (λ id start. has_key id start c ≡ false) id start event row cs rest found
              later a.0,
          r.keys a.1,
        );
      })
]

add_event-IsAdded :
    (r : Event × Json) (cs cs' : List Cycle) → add_event r cs ≡ ok cs' → IsAdded r cs cs'
unfolding add_event
add_event-IsAdded (event, row) cs cs' h = on_ok (item "reconcileStartedAt" row) _ h λ start s h1.
    on_ok (get "reconcileID" row) _ h1 λ id i h2.
      on_pass (not (hashable id && hashable start)) _ _ h2
        λ _ h3. add_row-IsAdded id start event row cs cs' s i h3

-- Whether a line gives a row that passes the test.
abbrev pub tells : (Event × Json → Bool) → Result Error Row → Bool
tells p (ok none) = false
tells p (ok (some r)) = p r
tells p (err e) = false

-- What is known of the cycles after some lines, from those before.
pub record Continues (ls : Test → ℕ) (cs cs' : List Cycle) : Type 0 where
  pub more : (p : Test) → total_rows p cs' ≡ ls p + total_rows p cs
  pub cycles : All IsCycle cs → All IsCycle cs'
  pub keys : HasDistinctKeys cs → HasDistinctKeys cs'

unchanged : (cs : List Cycle) → Continues (λ _. 0) cs cs
unchanged cs = record { more = λ p. omega arith; cycles = λ a. a; keys = λ a. a }

add_if-Continues :
    (row : Row) (cs cs' : List Cycle)
    → add_if row cs ≡ ok cs'
    → Continues (λ p. if tells p (ok row) then 1 else 0) cs cs'
unfolding add_if
add_if-Continues none cs cs' h =
    subst (Continues (λ _. 0) cs) (ok-injective {E = Error} _ _ h) (unchanged cs)
add_if-Continues (some r) cs cs' h =
    let added = add_event-IsAdded r cs cs' h in
    record { more = added.one_more; cycles = added.cycles; keys = added.keys }

module _ (parse_json : String → Option Json) where
  -- How many of the lines tell of a row that passes the test.
  abbrev pub told : Bool → List String → (Event × Json → Bool) → ℕ
  told ignore lines p = count_if (λ line. tells p (read_line parse_json ignore line)) lines

  pub collect-Continues :
      (ignore : Bool) (lines : List String) (cs cs' : List Cycle)
      → collect parse_json ignore lines cs ≡ ok cs'
      → Continues (told ignore lines) cs cs'
  unfolding collect
  collect-Continues ignore [] cs cs' h =
      subst (Continues (λ _. 0) cs) (ok-injective {E = Error} _ _ h) (unchanged cs)
  collect-Continues ignore (line ∷ lines) cs cs' h =
      on_ok (read_line parse_json ignore line) _ h λ row read h1.
        on_ok (add_if row cs) _ h1 λ next here rest.
          let now = add_if-Continues row cs next here in
          let later = collect-Continues ignore lines next cs' rest in
          record {
            more = λ p. rw read (omega (arith, now.more p, later.more p));
            cycles = λ a. later.cycles (now.cycles a);
            keys = λ a. later.keys (now.keys a);
          }

-- ===== src/Extract/Decisions/Unique.antt =====
-- What `compute_phpa_metrics` (hack/analyze/extract.py) counts: the dict that drops repeated ids keeps
-- the first decision of each id and every decision without one, in the order of the log.
use mathlib.Core.Path.{subst}
use mathlib.Core.List.{append-nil}
use text.Mathlib.Text.{◌==◌ as str_eq}
use text.Mathlib.TextEquality.{eq_iff}
use predictive_hpa.Prelude.{
  ℕ, suc, ◌+◌, ◌≡◌, ◌∙◌, refl, ap, sym, inl, inr, arith, Bool, true, false, ◌||◌, ◌==◌, Option,
  none, some, List, [], ◌∷◌, ◌++◌, map, if◌then◌else◌, length, any_of, Bool-cases, Option-cases,
  String, length-append,
}
use predictive_hpa.Extract.Decisions.{
  Decision, Key, id, no_id, eq_key, Dict, has_key, assign, add_by_id, add_decision, add_decisions,
  unique,
}

-- Whether an entry has the id r, and whether two entries have the same id.
abbrev has_id : String → Decision → Bool
has_id r d = elim d.reconcile_id [ none ↦ false | some s ↦ str_eq r s ]

abbrev pub has_same : Option String → Decision → Bool
has_same none e = false
has_same (some r) e = has_id r e

abbrev pub same_id : Decision → Decision → Bool
same_id d = has_same d.reconcile_id

-- The entries that repeat the id of no earlier one; `earlier` are those before them.
unfoldable pub first_of_each : List Decision → List Decision → List Decision
first_of_each earlier [] = []
first_of_each earlier (d ∷ ds) =
    let rest = first_of_each (d ∷ earlier) ds in
    if any_of (same_id d) earlier then rest else d ∷ rest

values : Dict → List Decision
values by_id = map (λ entry. entry.1) by_id

abbrev entry : Key → Decision → Dict
entry k d = (k, d) ∷ []

has_key-append :
    (k l : Key) (d : Decision) (by_id : Dict)
    → has_key k (by_id ++ entry l d) ≡ (has_key k by_id || eq_key k l)
unfolding has_key
has_key-append k l d [] = ground arith
has_key-append k l d ((m, x) ∷ rest) = rw (has_key-append k l d rest) (ground arith)

assign-fresh :
    (k : Key) (d : Decision) (by_id : Dict)
    → has_key k by_id ≡ false
    → assign k d by_id ≡ by_id ++ entry k d
unfolding has_key assign
assign-fresh k d [] h = refl
assign-fresh k d ((l, x) ∷ rest) h =
    let other : eq_key k l ≡ false = ground arith in
    let fresh : has_key k rest ≡ false = ground arith in
    rw (other, assign-fresh k d rest fresh) refl

values-append :
    (by_id : Dict) (k : Key) (d : Decision) → values (by_id ++ entry k d) ≡ values by_id ++ d ∷ []
unfolding values
values-append [] k d = refl
values-append ((l, x) ∷ rest) k d = ap (λ ds. x ∷ ds) (values-append rest k d)

-- The dict has exactly the ids of the earlier entries, and no number from its length on.
record Tracks (earlier : List Decision) (by_id : Dict) : Type 0 where
  ids : (r : String) → has_key (id r) by_id ≡ any_of (has_id r) earlier
  numbers : (k : ℕ) → has_key (no_id (length by_id + k)) by_id ≡ false

beyond : (n k : ℕ) → (n + 1 + k == n) ≡ false
beyond n k = ground arith

numbers_grow :
    (l : Key) (d : Decision) (by_id : Dict)
    → ((k : ℕ) → eq_key (no_id (length by_id + 1 + k)) l ≡ false)
    → ((k : ℕ) → has_key (no_id (length by_id + k)) by_id ≡ false)
    → (k : ℕ) → has_key (no_id (length (by_id ++ entry l d) + k)) (by_id ++ entry l d) ≡ false
numbers_grow l d by_id new old k =
    let size : length (by_id ++ entry l d) ≡ length by_id + 1 = length-append by_id (entry l d) in
    let shift : length by_id + 1 + k ≡ length by_id + suc k = omega arith in
    let old' : has_key (no_id (length by_id + 1 + k)) by_id ≡ false = rw shift (old (suc k)) in
    rw size (rw (has_key-append (no_id (length by_id + 1 + k)) l d by_id, old', new k) refl)

module _ (earlier : List Decision) (by_id : Dict) (d : Decision) (t : Tracks earlier by_id) where
  none-Tracks :
      d.reconcile_id ≡ none → Tracks (d ∷ earlier) (by_id ++ entry (no_id (length by_id)) d)
  none-Tracks e = record {
    ids = λ r. rw (has_key-append (id r) (no_id (length by_id)) d by_id, t.ids r, e) (ground arith);
    numbers = numbers_grow (no_id (length by_id)) d by_id (beyond (length by_id)) t.numbers;
  }

  new-Tracks :
      (r : String) → d.reconcile_id ≡ some r → Tracks (d ∷ earlier) (by_id ++ entry (id r) d)
  new-Tracks r e = record {
    ids = λ x. rw (has_key-append (id x) (id r) d by_id, t.ids x, e) (ground arith);
    numbers = numbers_grow (id r) d by_id (λ k. refl) t.numbers;
  }

  repeat-Tracks :
      (r : String)
      → d.reconcile_id ≡ some r
      → any_of (has_id r) earlier ≡ true
      → Tracks (d ∷ earlier) by_id
  repeat-Tracks r e h = record {
    ids = λ x. elim (Bool-cases (str_eq x r)) [
      | inl same ↦
          let known : any_of (has_id x) earlier ≡ true =
            subst (λ y. any_of (has_id y) earlier ≡ true) (sym ((eq_iff x r).0 same)) h in
          rw (t.ids x, e, same) known
      | inr differ ↦ rw (e, differ) (t.ids x)
    ];
    numbers = t.numbers;
  }

none_repeated : (ds : List Decision) → any_of (λ _. false) ds ≡ false
none_repeated [] = refl
none_repeated (d ∷ ds) = none_repeated ds

append_cons : (xs ys : List Decision) (d : Decision) → (xs ++ d ∷ []) ++ ys ≡ xs ++ d ∷ ys
append_cons [] ys d = refl
append_cons (x ∷ xs) ys d = ap (λ zs. x ∷ zs) (append_cons xs ys d)

module _ (earlier : List Decision) (by_id : Dict) (d : Decision) (ds : List Decision) where
  -- What a round adds, and what the specification keeps, once the id is known.
  add_decision_lem :
      {o : Option String} → d.reconcile_id ≡ o → add_decision by_id d ≡ add_by_id o d by_id
  unfolding add_decision
  add_decision_lem e = ap (λ o. add_by_id o d by_id) e

  first_of_each_lem :
      {o : Option String}
      → d.reconcile_id ≡ o
      → first_of_each earlier (d ∷ ds) ≡ (
          if any_of (has_same o) earlier
          then first_of_each (d ∷ earlier) ds
          else d ∷ first_of_each (d ∷ earlier) ds)
  unfolding first_of_each
  first_of_each_lem e =
      ap
        (λ o.
          if any_of (has_same o) earlier
          then first_of_each (d ∷ earlier) ds
          else d ∷ first_of_each (d ∷ earlier) ds)
        e

  -- A round that adds the entry under a new key.
  added :
      (k : Key)
      → add_decision by_id d ≡ by_id ++ entry k d
      → first_of_each earlier (d ∷ ds) ≡ d ∷ first_of_each (d ∷ earlier) ds
      → values (add_decisions (by_id ++ entry k d) ds)
        ≡ values (by_id ++ entry k d) ++ first_of_each (d ∷ earlier) ds
      → values (add_decisions by_id (d ∷ ds)) ≡ values by_id ++ first_of_each earlier (d ∷ ds)
  unfolding add_decisions
  added k a f h =
      ap (λ x. values (add_decisions x ds)) a
      ∙ h
      ∙ ap (λ xs. xs ++ first_of_each (d ∷ earlier) ds) (values-append by_id k d)
      ∙ append_cons (values by_id) (first_of_each (d ∷ earlier) ds) d
      ∙ ap (λ xs. values by_id ++ xs) (sym f)

  skipped :
      add_decision by_id d ≡ by_id
      → first_of_each earlier (d ∷ ds) ≡ first_of_each (d ∷ earlier) ds
      → values (add_decisions by_id ds) ≡ values by_id ++ first_of_each (d ∷ earlier) ds
      → values (add_decisions by_id (d ∷ ds)) ≡ values by_id ++ first_of_each earlier (d ∷ ds)
  unfolding add_decisions
  skipped a f h =
      ap (λ x. values (add_decisions x ds)) a ∙ h ∙ ap (λ xs. values by_id ++ xs) (sym f)

add_decisions-first_of_each :
    (earlier : List Decision) (by_id : Dict) (ds : List Decision)
    → Tracks earlier by_id
    → values (add_decisions by_id ds) ≡ values by_id ++ first_of_each earlier ds
unfolding add_decisions add_by_id first_of_each
add_decisions-first_of_each earlier by_id [] t = sym (append-nil (values by_id))
add_decisions-first_of_each earlier by_id (d ∷ ds) t = elim (Option-cases d.reconcile_id) [
  | inl e ↦
      let k = no_id (length by_id) in
      let start : length by_id + 0 ≡ length by_id = omega arith in
      let fresh : has_key k by_id ≡ false =
        subst (λ n. has_key (no_id n) by_id ≡ false) start (t.numbers 0) in
      added earlier by_id d ds k
        (add_decision_lem earlier by_id d ds e ∙ assign-fresh k d by_id fresh)
        (first_of_each_lem earlier by_id d ds e ∙ rw (none_repeated earlier) refl)
        (add_decisions-first_of_each (d ∷ earlier) (by_id ++ entry k d) ds
          (none-Tracks earlier by_id d t e))
  | inr (r, e) ↦ elim (Bool-cases (any_of (has_id r) earlier)) [
    | inl repeated ↦
        skipped earlier by_id d ds
          (add_decision_lem earlier by_id d ds e ∙ rw (t.ids r, repeated) refl)
          (first_of_each_lem earlier by_id d ds e ∙ rw repeated refl)
          (add_decisions-first_of_each (d ∷ earlier) by_id ds
            (repeat-Tracks earlier by_id d t r e repeated))
    | inr first ↦
        let fresh : has_key (id r) by_id ≡ false = t.ids r ∙ first in
        added earlier by_id d ds (id r)
          (add_decision_lem earlier by_id d ds e ∙ rw fresh (assign-fresh (id r) d by_id fresh))
          (first_of_each_lem earlier by_id d ds e ∙ rw first refl)
          (add_decisions-first_of_each (d ∷ earlier) (by_id ++ entry (id r) d) ds
            (new-Tracks earlier by_id d t r e))
  ]
]

no_decisions : Tracks [] []
unfolding has_key
no_decisions = record { ids = λ r. refl; numbers = λ k. refl }

pub unique-first_of_each : (ds : List Decision) → unique ds ≡ first_of_each [] ds
unfolding unique values
unique-first_of_each ds = add_decisions-first_of_each [] [] ds no_decisions

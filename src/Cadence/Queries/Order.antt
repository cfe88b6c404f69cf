-- ===== src/Cadence/Queries/Order.antt =====
-- What the receipts that `observation_queries` (hack/analyze/cadence.py) accepts satisfy.
use predictive_hpa.Prelude.{
  ℕ, ◌+◌, ◌-◌, ◌≤◌, ◌≡◌, ◌⊎◌, ◌∙◌, refl, ap, sym, arith, Bool, true, false, ◌&&◌, not, Option, none,
  some, List, [], ◌∷◌, ◌++◌, if◌then◌else◌, get_last?, ok, on_ok, ok-injective, Bool-cases, inl,
  inr, and_true, or_false,
}
use predictive_hpa.Prelude.Inversion.{◌>>=◌, returned, not_raised}
use mathlib.Core.Path.{subst}
use predictive_hpa.Prelude.Int.{ℤ, eq_ℤ, eq_of_parts}
use predictive_hpa.Cadence.Queries.{
  QueryKind, rate, timestamp, other_kind, Receipt, Row, Query, Refused, interval_disagrees,
  invalid_receipt, lacks_success, value, same_kind, disagrees, is_invalid, check_receipt,
  check_receipts, of_kind, last_failed, eq_query, eq_queries, lacks_receipts, listed,
  observation_queries,
}

-- A query after the time `previous`, in an observation that finished at `end`.
abbrev pub InOrder : ℕ → ℕ → Query → Type 0
InOrder previous end q =
    (previous ≤ q.started + 1000)
    × (q.started ≤ q.finished)
    × (q.finished ≤ end + 1000)
    × (q.duration ≤ q.finished - q.started + 2000)
    × (q.finished - q.started ≤ q.duration + 2000)
    × (same_kind q.kind other_kind ≡ false)

abbrev pub Ordered : ℕ → ℕ → List Query → Type 0
Ordered previous end [] = Unit
Ordered previous end (q ∷ qs) = InOrder previous end q × Ordered q.finished end qs

agreed :
    (previous end start finish duration : ℕ)
    → disagrees previous end start finish duration ≡ false
    → (previous ≤ start + 1000)
      × (start ≤ finish)
      × (finish ≤ end + 1000)
      × (duration ≤ finish - start + 2000)
      × (finish - start ≤ duration + 2000)
agreed previous end start finish duration h = ground arith

known_kind : (q : Receipt) → is_invalid q ≡ false → same_kind q.kind other_kind ≡ false
known_kind q h = ground arith

module _ (previous end : ℕ) where
  check_receipt-InOrder :
      (r : Receipt) {q : Query} → check_receipt previous end r ≡ ok q → InOrder previous end q
  unfolding check_receipt
  check_receipt-InOrder r h = do
    (start, e1, h1) ← returned (value r.started_at) _ h
    (finish, e2, h2) ← returned (value r.finished_at) _ h1
    (duration, e3, h3) ← returned (value r.duration) _ h2
    (a, h4) ← not_raised (disagrees previous end start finish duration) interval_disagrees _ h3
    (v, h5) ← not_raised (is_invalid r) invalid_receipt _ h4
    (status, e6, h6) ← returned (value r.status) _ h5
    let (x, y, z, u, w) = agreed previous end start finish duration a in
        subst (InOrder previous end) (ok-injective {E = Refused} _ _ h6)
          (x, y, z, u, w, known_kind r v)

pub check_receipts-Ordered :
    (previous end : ℕ) (rs : List Receipt) {qs : List Query}
    → check_receipts previous end rs ≡ ok qs
    → Ordered previous end qs
unfolding check_receipts
check_receipts-Ordered previous end [] h =
    subst (Ordered previous end) (ok-injective {E = Refused} _ _ h) tt
check_receipts-Ordered previous end (r ∷ rs) h = on_ok (check_receipt previous end r) _ h λ q e h1.
    on_ok (check_receipts q.finished end rs) _ h1 λ qs e' h2.
      subst (Ordered previous end) (ok-injective {E = Refused} _ _ h2)
        (check_receipt-InOrder previous end r e, check_receipts-Ordered q.finished end rs e')

-- The test on kinds and on queries decides equality.
same_kind→eq : (k l : QueryKind) → same_kind k l ≡ true → k ≡ l
same_kind→eq rate rate h = refl
same_kind→eq timestamp timestamp h = refl
same_kind→eq other_kind other_kind h = refl
same_kind→eq rate timestamp h = cc
same_kind→eq rate other_kind h = cc
same_kind→eq timestamp rate h = cc
same_kind→eq timestamp other_kind h = cc
same_kind→eq other_kind rate h = cc
same_kind→eq other_kind timestamp h = cc

same_bool→eq : (a b : Bool) → (if a then b else not b) ≡ true → a ≡ b
same_bool→eq true b h = sym h
same_bool→eq false true h = cc
same_bool→eq false false h = refl

eq_ℤ→eq : (a b : ℤ) → eq_ℤ a b ≡ true → a ≡ b
eq_ℤ→eq a b h = eq_of_parts a b (ground arith)

eq_query→eq : (a b : Query) → eq_query a b ≡ true → a ≡ b
eq_query→eq a b h =
    let (h5, s) = and_true _ (eq_ℤ a.status b.status) h in
    let (h4, f) = and_true _ (if a.failed then b.failed else not b.failed) h5 in
    let (h3, k) = and_true _ (same_kind a.kind b.kind) h4 in
    let started : a.started ≡ b.started = ground arith in
    let finished : a.finished ≡ b.finished = ground arith in
    let duration : a.duration ≡ b.duration = ground arith in
    let kind = same_kind→eq a.kind b.kind k in
    let failed = same_bool→eq a.failed b.failed f in
    let status = eq_ℤ→eq a.status b.status s in
    λ i. record {
      started = started i;
      finished = finished i;
      duration = duration i;
      kind = kind i;
      failed = failed i;
      status = status i;
    }

eq_queries→eq : (xs ys : List Query) → eq_queries xs ys ≡ true → xs ≡ ys
unfolding eq_queries
eq_queries→eq [] [] h = refl
eq_queries→eq [] (y ∷ ys) h = cc
eq_queries→eq (x ∷ xs) [] h = cc
eq_queries→eq (x ∷ xs) (y ∷ ys) h =
    let (a, b) = and_true (eq_query x y) (eq_queries xs ys) h in
    let first = eq_query→eq x y a in let rest = eq_queries→eq xs ys b in λ i. first i ∷ rest i

last_failed-false :
    (o : Option Query) → last_failed o ≡ false → (q : Query) × (o ≡ some q) × (q.failed ≡ false)
last_failed-false none h = cc
last_failed-false (some q) h = (q, refl, h)

-- The last query of a kind succeeded.
abbrev pub Ends : QueryKind → List Query → Type 0
Ends k qs = (q : Query) × (get_last? (of_kind k qs) ≡ some q) × (q.failed ≡ false)

abbrev pub IsAccepted : List Query → Type 0
IsAccepted qs = Ends rate qs × Ends timestamp qs × (qs ≡ of_kind rate qs ++ of_kind timestamp qs)

lacks_receipts-IsAccepted : (qs : List Query) → lacks_receipts qs ≡ false → IsAccepted qs
unfolding lacks_receipts
lacks_receipts-IsAccepted qs h =
    let (firsts, equal) =
      or_false _ (not (eq_queries qs (of_kind rate qs ++ of_kind timestamp qs))) h in
    let (r, t) = or_false (last_failed (get_last? (of_kind rate qs))) _ firsts in
    (
      last_failed-false _ r,
      last_failed-false _ t,
      eq_queries→eq qs (of_kind rate qs ++ of_kind timestamp qs) (ground arith),
    )

-- The queries that an observation yields follow one another, up to a millisecond: the first starts
-- after the observation does, each starts after the one before it finished, and all finish before the
-- observation; each duration is that between its start and its finish, up to two milliseconds, and
-- each kind is known. If the observation was accepted, its rate queries come first and its timestamp
-- queries after them, and the last of either kind succeeded.
pub observation_queries-Ordered :
    (row : Row) (begin end : ℕ) (qs : List Query)
    → row.started_at ≡ some begin
    → row.finished_at ≡ some end
    → observation_queries row ≡ ok qs
    → Ordered begin end qs × ((row.is_success ≡ false) ⊎ IsAccepted qs)
unfolding observation_queries
observation_queries-Ordered row begin end qs b e h = do
  (rs, e1, h1) ← returned (listed row.queries) _ h
  (begin', e2, h2) ← returned (value row.started_at) _ h1
  (end', e3, h3) ← returned (value row.finished_at) _ h2
  (result, e4, h4) ← returned (check_receipts begin' end' rs) _ h3
  (t, h5) ← not_raised (row.is_success && lacks_receipts result) lacks_success _ h4
  let same_begin : begin' ≡ begin = ok-injective {E = Refused} _ _ (sym e2 ∙ ap value b) in
      let same_end : end' ≡ end = ok-injective {E = Refused} _ _ (sym e3 ∙ ap value e) in
      let same = ok-injective {E = Refused} _ _ h5 in
      let ordered : Ordered begin end result =
        subst (λ x. Ordered x end result) same_begin
          (subst (λ y. Ordered begin' y result) same_end
            (check_receipts-Ordered begin' end' rs e4)) in
      let accepted : (row.is_success ≡ false) ⊎ IsAccepted result =
        elim (Bool-cases row.is_success) [
          | inl s ↦ inr (lacks_receipts-IsAccepted result (ground arith))
          | inr s ↦ inl s
        ] in
      subst (λ (x : List Query). Ordered begin end x × ((row.is_success ≡ false) ⊎ IsAccepted x))
        same (ordered, accepted)

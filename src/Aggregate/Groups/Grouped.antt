-- ===== src/Aggregate/Groups/Grouped.antt =====
-- hack/analyze/aggregate.py, group_by_pattern_controller: the groups are a partition of the extracts
-- by pattern and controller, each sorted by its repeat.
use predictive_hpa.Prelude.{
  String, true, false, not, ◌&&◌, ◌≡◌, ◌⊎◌, inl, inr, refl, List, [], ◌∷◌, ◌++◌, ok, on_ok, on_pass,
  ok-injective, All, All-append, Bool-cases,
}
use predictive_hpa.Prelude.Sorting
use predictive_hpa.Prelude.Sorting.{sort, sort-perm, sort-IsSorted, sort-All}
use predictive_hpa.Json.{Json, Fields, hashable}
use predictive_hpa.Aggregate.Pilot.{
  Refusal, caught, caught-eq-ok, Group, same_group, validate_pilot_compatibility,
}
use predictive_hpa.Aggregate.Groups.{
  Groups, key_of, less_repeat, add_extract, gather, sort_groups, group_by_pattern_controller,
}
use mathlib.Core.Path.{subst}
use mathlib.Core.List.{Perm, append-nil, append_assoc, perm_append_comm}
use mathlib.Core.List.Perm

abbrev pub members : Groups → List Fields
members [] = []
members ((key, es) ∷ groups) = es ++ members groups

-- The extract has the key of the group, as the same value or as one that Python finds equal.
abbrev pub BelongsTo : Group → Fields → Type 0
BelongsTo key e = (key ≡ key_of e) ⊎ (same_group key (key_of e) ≡ true)

abbrev Keyed : Group × List Fields → Type 0
Keyed g = All (BelongsTo g.0) g.1

-- No two groups have equal keys.
abbrev pub Separated : Groups → Type 0
Separated [] = Unit {0}
Separated (g ∷ groups) =
    All (λ (h : Group × List Fields). same_group g.0 h.0 ≡ false) groups × Separated groups

abbrev Sorted : Group × List Fields → Type 0
Sorted g = Sorting.IsSorted less_repeat g.1

pub record IsGrouping (es : List Fields) (groups : Groups) : Type 0 where
  pub complete : Perm (members groups) es
  pub keyed : All Keyed groups
  pub separated : Separated groups
  pub sorted : All Sorted groups

add_extract-perm :
    (e : Fields) (gs : Groups) → Perm (members (add_extract e gs)) (members gs ++ e ∷ [])
unfolding add_extract
add_extract-perm e [] = Perm.rfl
add_extract-perm e ((key, es) ∷ gs) = elim (Bool-cases (same_group key (key_of e))) [
  | inl here ↦
      rw (here, append_assoc es (e ∷ []) (members gs), append_assoc es (members gs) (e ∷ []))
        (Perm.append_left es (perm_append_comm (e ∷ []) (members gs)))
  | inr later ↦
      rw (later, append_assoc es (members gs) (e ∷ []))
        (Perm.append_left es (add_extract-perm e gs))
]

add_extract-Keyed : (e : Fields) (gs : Groups) → All Keyed gs → All Keyed (add_extract e gs)
unfolding add_extract
add_extract-Keyed e [] h = ((inl refl, tt), tt)
add_extract-Keyed e ((key, es) ∷ gs) h = elim (Bool-cases (same_group key (key_of e))) [
  | inl here ↦ rw here (All-append (BelongsTo key) es (e ∷ []) h.0 (inr here, tt), h.1)
  | inr later ↦ rw later (h.0, add_extract-Keyed e gs h.1)
]

-- A key that differs from all of the groups' and from the extract's differs from those after it.
add_extract-apart :
    (k : Group) (e : Fields) (gs : Groups)
    → same_group k (key_of e) ≡ false
    → All (λ (h : Group × List Fields). same_group k h.0 ≡ false) gs
    → All (λ (h : Group × List Fields). same_group k h.0 ≡ false) (add_extract e gs)
unfolding add_extract
add_extract-apart k e [] n h = (n, tt)
add_extract-apart k e ((key, es) ∷ gs) n h = elim (Bool-cases (same_group key (key_of e))) [
  | inl here ↦ rw here h
  | inr later ↦ rw later (h.0, add_extract-apart k e gs n h.1)
]

add_extract-Separated : (e : Fields) (gs : Groups) → Separated gs → Separated (add_extract e gs)
unfolding add_extract
add_extract-Separated e [] h = (tt, tt)
add_extract-Separated e ((key, es) ∷ gs) h = elim (Bool-cases (same_group key (key_of e))) [
  | inl here ↦ rw here h
  | inr later ↦ rw later (add_extract-apart key e gs later h.0, add_extract-Separated e gs h.1)
]

gather-perm :
    (es : List Fields) (gs gs' : Groups)
    → gather es gs ≡ ok gs'
    → Perm (members gs') (members gs ++ es)
unfolding gather
gather-perm [] gs gs' h =
    subst (λ g. Perm (members g) (members gs ++ [])) (ok-injective {E = Refusal} gs gs' h)
      (rw (append-nil (members gs)) Perm.rfl)
gather-perm (e ∷ es) gs gs' h =
    on_pass (not (hashable (key_of e).0 && hashable (key_of e).1)) _ _ h λ _ h'.
      Perm.trans (gather-perm es (add_extract e gs) gs' h') (
        rw (← append_assoc (members gs) (e ∷ []) es) (Perm.append_right es (add_extract-perm e gs)))

gather-keeps :
    (P : Groups → Type 0) (es : List Fields) (gs gs' : Groups)
    → ((e : Fields) (g : Groups) → P g → P (add_extract e g))
    → gather es gs ≡ ok gs'
    → P gs
    → P gs'
unfolding gather
gather-keeps P [] gs gs' step h p = subst P (ok-injective {E = Refusal} gs gs' h) p
gather-keeps P (e ∷ es) gs gs' step h p =
    on_pass (not (hashable (key_of e).0 && hashable (key_of e).1)) _ _ h
      λ _ h'. gather-keeps P es (add_extract e gs) gs' step h' (step e gs p)

-- What the loop that sorts the groups keeps: the keys, and the members up to their order.
pub record IsSortedFrom (gs gs' : Groups) : Type 0 where
  pub same_members : Perm (members gs') (members gs)
  pub keyed : All Keyed gs → All Keyed gs'
  pub apart :
      (k : Group)
      → All (λ (h : Group × List Fields). same_group k h.0 ≡ false) gs
      → All (λ (h : Group × List Fields). same_group k h.0 ≡ false) gs'
  pub separated : Separated gs → Separated gs'
  pub sorted : All Sorted gs'

sort_groups-IsSortedFrom : (gs gs' : Groups) → sort_groups gs ≡ ok gs' → IsSortedFrom gs gs'
unfolding sort_groups
sort_groups-IsSortedFrom [] gs' h =
    subst (IsSortedFrom []) (ok-injective {E = Refusal} _ _ h) (record {
      same_members = Perm.rfl;
      keyed = λ a. a;
      apart = λ k a. a;
      separated = λ a. a;
      sorted = tt;
    })
sort_groups-IsSortedFrom ((key, es) ∷ gs) gs' h =
    on_ok (caught (sort less_repeat es)) _ h λ now sorted h1.
      on_ok (sort_groups gs) _ h1 λ rest done h2.
        let found = caught-eq-ok (sort less_repeat es) now sorted in
        let r = sort_groups-IsSortedFrom gs rest done in
        subst (IsSortedFrom ((key, es) ∷ gs)) (ok-injective {E = Refusal} _ _ h2) (record {
          same_members = Perm.append (sort-perm less_repeat es now found) r.same_members;
          keyed = λ a. (sort-All less_repeat (BelongsTo key) es now found a.0, r.keyed a.1);
          apart = λ k a. (a.0, r.apart k a.1);
          separated = λ a. (r.apart key a.0, r.separated a.1);
          sorted = (sort-IsSorted less_repeat es now found, r.sorted);
        })

-- When the extracts may be grouped, the groups hold each of them once; a group holds only extracts
-- with its pattern and controller, no two groups have equal keys, and within a group the repeats
-- are in order.
pub group_by_pattern_controller-IsGrouping :
    (str_of : Json → String) (es : List Fields) (gs : Groups)
    → group_by_pattern_controller str_of es ≡ ok gs
    → IsGrouping es gs
unfolding group_by_pattern_controller
group_by_pattern_controller-IsGrouping str_of es gs h =
    on_ok (validate_pilot_compatibility str_of es) _ h λ _ _ h1.
      on_ok (gather es []) _ h1 λ g put h2.
        let r = sort_groups-IsSortedFrom g gs h2 in
        record {
          complete = Perm.trans r.same_members (gather-perm es [] g put);
          keyed = r.keyed (gather-keeps (All Keyed) es [] g add_extract-Keyed put tt);
          separated = r.separated (gather-keeps Separated es [] g add_extract-Separated put tt);
          sorted = r.sorted;
        }

-- ===== src/Aggregate/Groups/Returns.antt =====
-- hack/analyze/aggregate.py, group_by_pattern_controller: when grouping cannot raise.
use predictive_hpa.Prelude.{
  String, Bool, true, false, ◌≡◌, refl, ◌&&◌, some, List, [], ◌∷◌, ok, any_of, All, All-append,
  Bool-cases, inl, inr,
}
use predictive_hpa.Prelude.Sorting.{sort_returns}
use predictive_hpa.Float.{Float, lt, of_ℤ}
use predictive_hpa.Prelude.Int.{pos}
use predictive_hpa.Json.{
  Json, null, bool, int, float, str, arr, obj, Fields, hashable, number?, less,
}
use predictive_hpa.Aggregate.Pilot.{Group, is_controlled, same_group, validate_pilot_compatibility}
use predictive_hpa.Aggregate.Groups.{
  Groups, key_of, repeat_of, less_repeat, add_extract, gather, sort_groups,
  group_by_pattern_controller,
}

-- The key can be one of a dictionary, and the repeat is a number or absent.
pub record IsGroupable (e : Fields) : Type 0 where
  pub key_hashable : hashable (key_of e).0 && hashable (key_of e).1 ≡ true
  pub repeat : Float
  pub repeat_read : number? (repeat_of e) ≡ some repeat

less_number_returns :
    (v w : Json) (x y : Float)
    → number? v ≡ some x
    → number? w ≡ some y
    → (r : Bool) × (less v w ≡ ok r)
unfolding less
less_number_returns null w x y p q = cc
less_number_returns (bool true) w x y p q = (lt (of_ℤ (pos 1)) y, rw q refl)
less_number_returns (bool false) w x y p q = (lt (of_ℤ (pos 0)) y, rw q refl)
less_number_returns (int n) w x y p q = (lt (of_ℤ n) y, rw q refl)
less_number_returns (float z) w x y p q = (lt z y, rw q refl)
less_number_returns (str s) w x y p q = cc
less_number_returns (arr s) w x y p q = cc
less_number_returns (obj s) w x y p q = cc

less_repeat_returns :
    (a b : Fields) → IsGroupable a → IsGroupable b → (r : Bool) × (less_repeat a b ≡ ok r)
less_repeat_returns a b p q =
    less_number_returns (repeat_of a) (repeat_of b) p.repeat q.repeat p.repeat_read q.repeat_read

abbrev AllGroupable : Groups → Type 0
AllGroupable gs = All (λ (g : Group × List Fields). All IsGroupable g.1) gs

add_extract-AllGroupable :
    (e : Fields) (gs : Groups) → IsGroupable e → AllGroupable gs → AllGroupable (add_extract e gs)
unfolding add_extract
add_extract-AllGroupable e [] p a = ((p, tt), tt)
add_extract-AllGroupable e ((key, es) ∷ gs) p a = elim (Bool-cases (same_group key (key_of e))) [
  | inl here ↦ rw here (All-append IsGroupable es (e ∷ []) a.0 (p, tt), a.1)
  | inr later ↦ rw later (a.0, add_extract-AllGroupable e gs p a.1)
]

gather_returns :
    (es : List Fields) (gs : Groups)
    → All IsGroupable es
    → AllGroupable gs
    → (gs' : Groups) × (gather es gs ≡ ok gs') × AllGroupable gs'
unfolding gather
gather_returns [] gs a b = (gs, refl, b)
gather_returns (e ∷ es) gs a b =
    let (gs', found, all) =
      gather_returns es (add_extract e gs) a.1 (add_extract-AllGroupable e gs a.0 b) in
    (gs', rw (a.0.key_hashable) found, all)

sort_groups_returns : (gs : Groups) → AllGroupable gs → (gs' : Groups) × (sort_groups gs ≡ ok gs')
unfolding sort_groups
sort_groups_returns [] a = ([], refl)
sort_groups_returns ((key, es) ∷ gs) a =
    let (sorted, done) = sort_returns less_repeat IsGroupable less_repeat_returns es a.0 in
    let (rest, found) = sort_groups_returns gs a.1 in ((key, sorted) ∷ rest, rw (done, found) refl)

-- Grouping returns for extracts of which none is of the controlled protocol, when each has a
-- pattern and a controller that can be keys and a repeat that is a number or absent.
pub group_by_pattern_controller_returns :
    (str_of : Json → String) (es : List Fields)
    → any_of is_controlled es ≡ false
    → All IsGroupable es
    → (gs : Groups) × (group_by_pattern_controller str_of es ≡ ok gs)
unfolding group_by_pattern_controller validate_pilot_compatibility
group_by_pattern_controller_returns str_of es legacy a =
    let (gathered, put, all) = gather_returns es [] a tt in
    let (gs, done) = sort_groups_returns gathered all in (gs, rw (legacy, put) done)

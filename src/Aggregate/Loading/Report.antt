-- ===== src/Aggregate/Loading/Report.antt =====
-- hack/analyze/aggregate.py, load_extracts: every directory is accounted for, and each extract of
-- the report comes from a run that succeeded.
use predictive_hpa.Prelude.{
  ℕ, ◌+◌, String, true, false, ◌⊎◌, inl, inr, ◌++◌, ◌≡◌, refl, List, [], ◌∷◌, ok, on_ok,
  ok-injective, if◌then◌else◌, length, length-append, count_if, All, Any, All-append, All-Any,
  any_of, arith, ap,
}
use predictive_hpa.Json.{Json, Fields}
use predictive_hpa.Aggregate.Pilot.{Refusal, is_controlled, validate_pilot_compatibility}
use predictive_hpa.Aggregate.Pilot.Pooled.{IsPooled, validate_pilot_compatibility-IsPooled}
use predictive_hpa.Aggregate.Loading.{
  Directory, Reason, Outcome, ignored, skipped, loaded, read_directory, Loaded, add_outcome,
  read_directories, load_extracts,
}
use predictive_hpa.Aggregate.Loading.Source.{
  is_reported, IsSource, Explains, IsOf, read_directory-IsOf,
}
use mathlib.Core.Path.{subst}

entries : Loaded → ℕ
entries l = length l.extracts + length l.skip_messages

entries-add_outcome :
    (d : Directory) (o : Outcome) (l : Loaded)
    → IsOf d o
    → entries (add_outcome d.name o l) ≡ (if is_reported d then 1 else 0) + entries l
unfolding entries add_outcome
entries-add_outcome d ignored l h = rw h (omega arith)
entries-add_outcome d (skipped r) l h =
    rw h.0 (omega (arith, length-append l.skip_messages ((d.name, r) ∷ [])))
entries-add_outcome d (loaded e) l h = rw h.0 (omega (arith, length-append l.extracts (e ∷ [])))

add_outcome-All :
    (Q : Fields → Type 0) (d : Directory) (o : Outcome) (l : Loaded)
    → IsOf d o
    → ((e : Fields) → IsSource d e → Q e)
    → All Q l.extracts
    → All Q (add_outcome d.name o l).extracts
unfolding add_outcome
add_outcome-All Q d ignored l h f a = a
add_outcome-All Q d (skipped r) l h f a = a
add_outcome-All Q d (loaded e) l h f a = All-append Q l.extracts (e ∷ []) a (f e (h.1, h.2), tt)

Any-append_left : {A : Type 0} (P : A → Type 0) (xs ys : List A) → Any P xs → Any P (xs ++ ys)
Any-append_left P [] ys h = elim h [ ]
Any-append_left P (x ∷ xs) ys (inl h) = inl h
Any-append_left P (x ∷ xs) ys (inr h) = inr (Any-append_left P xs ys h)

Any-append_last : {A : Type 0} (P : A → Type 0) (xs : List A) (y : A) → P y → Any P (xs ++ y ∷ [])
Any-append_last P [] y h = inl h
Any-append_last P (x ∷ xs) y h = inr (Any-append_last P xs y h)

-- The message names the directory, with a reason that holds of it.
abbrev pub IsMessageOf : Directory → String × Reason → Type 0
IsMessageOf d m = (m.0 ≡ d.name) × Explains d m.1

-- The directory needs no mention, is loaded, or is named with the reason why not.
abbrev pub IsAccounted : Loaded → Directory → Type 0
IsAccounted l d =
    (is_reported d ≡ false) ⊎ (Any (IsSource d) l.extracts ⊎ Any (IsMessageOf d) l.skip_messages)

add_outcome-keeps :
    (P : Fields → Type 0) (Q : String × Reason → Type 0) (name : String) (o : Outcome) (l : Loaded)
    → (Any P l.extracts → Any P (add_outcome name o l).extracts)
      × (Any Q l.skip_messages → Any Q (add_outcome name o l).skip_messages)
unfolding add_outcome
add_outcome-keeps P Q name ignored l = (λ h. h, λ h. h)
add_outcome-keeps P Q name (skipped r) l =
    (λ h. h, λ h. Any-append_left Q l.skip_messages ((name, r) ∷ []) h)
add_outcome-keeps P Q name (loaded e) l = (λ h. Any-append_left P l.extracts (e ∷ []) h, λ h. h)

add_outcome-IsAccounted :
    (d : Directory) (o : Outcome) (l : Loaded) → IsOf d o → IsAccounted (add_outcome d.name o l) d
unfolding add_outcome
add_outcome-IsAccounted d ignored l h = inl h
add_outcome-IsAccounted d (skipped r) l h =
    inr (inr (Any-append_last (IsMessageOf d) l.skip_messages (d.name, r) (refl, h.1)))
add_outcome-IsAccounted d (loaded e) l h =
    inr (inl (Any-append_last (IsSource d) l.extracts e (h.1, h.2)))

-- Every directory but the calibration probes is loaded or explained; each extract comes from a run
-- among the directories; and once one is of the controlled protocol, they can be pooled.
pub record IsReport (str_of : Json → String) (ds : List Directory) (l : Loaded) : Type 0 where
  pub counted : length l.extracts + length l.skip_messages ≡ count_if is_reported ds
  pub accounted : All (IsAccounted l) ds
  pub sourced : All (λ e. Any (λ d. IsSource d e) ds) l.extracts
  pub pooled : any_of is_controlled l.extracts ≡ true → IsPooled str_of l.extracts

module _ (str_of : Json → String) where
  read_directories-entries :
      (ds : List Directory) (l l' : Loaded)
      → read_directories str_of ds l ≡ ok l'
      → entries l' ≡ count_if is_reported ds + entries l
  unfolding read_directories
  read_directories-entries [] l l' h = omega (arith, ap entries (ok-injective {E = Refusal} l l' h))
  read_directories-entries (d ∷ ds) l l' h = on_ok (read_directory str_of d) _ h λ o here rest.
      omega (
        arith,
        entries-add_outcome d o l (read_directory-IsOf str_of d o here),
        read_directories-entries ds (add_outcome d.name o l) l' rest,
      )

  read_directories-All :
      (Q : Fields → Type 0) (ds : List Directory) (l l' : Loaded)
      → read_directories str_of ds l ≡ ok l'
      → All (λ d. (e : Fields) → IsSource d e → Q e) ds
      → All Q l.extracts
      → All Q l'.extracts
  unfolding read_directories
  read_directories-All Q [] l l' h f a =
      subst (λ m. All Q m.extracts) (ok-injective {E = Refusal} l l' h) a
  read_directories-All Q (d ∷ ds) l l' h f a = on_ok (read_directory str_of d) _ h λ o here rest.
      read_directories-All Q ds (add_outcome d.name o l) l' rest f.1
        (add_outcome-All Q d o l (read_directory-IsOf str_of d o here) f.0 a)

  read_directories-keeps :
      (P : Fields → Type 0) (Q : String × Reason → Type 0) (ds : List Directory) (l l' : Loaded)
      → read_directories str_of ds l ≡ ok l'
      → (Any P l.extracts → Any P l'.extracts) × (Any Q l.skip_messages → Any Q l'.skip_messages)
  unfolding read_directories
  read_directories-keeps P Q [] l l' h =
      subst
        (λ (m : Loaded).
          (Any P l.extracts → Any P m.extracts) × (Any Q l.skip_messages → Any Q m.skip_messages))
        (ok-injective {E = Refusal} l l' h) (λ x. x, λ x. x)
  read_directories-keeps P Q (d ∷ ds) l l' h = on_ok (read_directory str_of d) _ h λ o here rest.
      let now = add_outcome-keeps P Q d.name o l in
      let later = read_directories-keeps P Q ds (add_outcome d.name o l) l' rest in
      (λ x. later.0 (now.0 x), λ x. later.1 (now.1 x))

  read_directories-IsAccounted :
      (ds : List Directory) (l l' : Loaded)
      → read_directories str_of ds l ≡ ok l'
      → All (IsAccounted l') ds
  unfolding read_directories
  read_directories-IsAccounted [] l l' h = tt
  read_directories-IsAccounted (d ∷ ds) l l' h = on_ok (read_directory str_of d) _ h λ o here rest.
      let next = add_outcome d.name o l in
      let keeps = read_directories-keeps (IsSource d) (IsMessageOf d) ds next l' rest in
      (
        elim (add_outcome-IsAccounted d o l (read_directory-IsOf str_of d o here)) [
          | inl free ↦ inl free
          | inr (inl found) ↦ inr (inl (keeps.0 found))
          | inr (inr told) ↦ inr (inr (keeps.1 told))
        ],
        read_directories-IsAccounted ds next l' rest,
      )

  none_yet : entries (record { extracts = []; skip_messages = [] }) ≡ 0
  unfolding entries
  none_yet = refl

  counted_at :
      (ds : List Directory) (l l' : Loaded)
      → entries l ≡ 0
      → read_directories str_of ds l ≡ ok l'
      → length l'.extracts + length l'.skip_messages ≡ count_if is_reported ds
  unfolding entries
  counted_at ds l l' z h = omega (arith, read_directories-entries ds l l' h)

  -- When loading succeeds, every directory but the calibration probes is loaded, or named in a message
  -- with a reason that holds of it, and there are as many extracts and messages together as such
  -- directories. Each extract comes from the files of a run that succeeded: unchanged and agreeing
  -- with its metadata if either is of the controlled protocol, else with what it lacks taken from the
  -- metadata. If one extract is of the controlled protocol, all of them form one pool.
  pub load_extracts-IsReport :
      (ds : List Directory) (l : Loaded) → load_extracts str_of ds ≡ ok l → IsReport str_of ds l
  unfolding load_extracts
  load_extracts-IsReport ds l h =
      let start : Loaded = record { extracts = []; skip_messages = [] } in
      on_ok (read_directories str_of ds start) _ h λ l' read h1.
        on_ok (validate_pilot_compatibility str_of l'.extracts) _ h1 λ _ valid h2.
          subst (IsReport str_of ds) (ok-injective {E = Refusal} l' l h2) (record {
            counted = counted_at ds start l' none_yet read;
            accounted = read_directories-IsAccounted ds start l' read;
            sourced =
                read_directories-All (λ e. Any (λ d. IsSource d e) ds) ds start l' read
                  (All-Any IsSource ds) tt;
            pooled = λ c. validate_pilot_compatibility-IsPooled str_of l'.extracts c valid;
          })

-- ===== src/Extract/Loaders/Events/Sorted.antt =====
-- hack/analyze/extract.py, load_events: what the returned events are and how they are ordered.
use predictive_hpa.Prelude.{
  Bool, true, false, ◌≡◌, inl, inr, refl, sym, ap, ◌∙◌, Option, some, none, List, [], ◌∷◌, Result,
  ok, err, on_ok, ok-injective, if◌then◌else◌, Bool-cases, All, All-append, All-map, Any, arith,
  ◌&&◌, length, length-append, count_if,
}
use predictive_hpa.Prelude.Int.{ℤ, ltb_ℤ, ◌≤ℤ◌}
use predictive_hpa.Prelude.Sorting
use predictive_hpa.Prelude.Sorting.{sort, sort-All, sort-IsSorted, sort-length}
use predictive_hpa.Json.{
  File, missing, unreadable, parsed, Json, str, get, get_or, or_else, is_str, at, get-at, Error,
}
use predictive_hpa.Extract.Loaders.Values.{Parsers, parse_iso_to_utc}
use predictive_hpa.Extract.Loaders.Events.{
  Rescale, Warning, not_found, parse_error, new_size_of, rescale_of, event_of, read_event,
  add_event, rescales_of, items_of, less_time, read_events, load_events,
}
use mathlib.Core.Path.{subst}

-- Each event is not before the one in front of it.
abbrev pub IsChronological : List Rescale → Type 0
IsChronological [] = Unit {0}
IsChronological (a ∷ []) = Unit {0}
IsChronological (a ∷ b ∷ rest) = (a.timestamp_utc ≤ℤ b.timestamp_utc) × IsChronological (b ∷ rest)

ltb→≤ℤ : (a b : ℤ) → ltb_ℤ a b ≡ true → a ≤ℤ b
ltb→≤ℤ a b h = ground arith

ltb→≥ℤ : (a b : ℤ) → ltb_ℤ b a ≡ false → a ≤ℤ b
ltb→≥ℤ a b h = ground arith

in_order : (a b : Rescale) → Sorting.InOrder less_time a b → a.timestamp_utc ≤ℤ b.timestamp_utc
in_order a b (inl h) = ltb→≤ℤ a.timestamp_utc b.timestamp_utc (ok-injective {E = Error} _ _ h)
in_order a b (inr h) = ltb→≥ℤ a.timestamp_utc b.timestamp_utc (ok-injective {E = Error} _ _ h)

IsSorted-IsChronological : (rs : List Rescale) → Sorting.IsSorted less_time rs → IsChronological rs
IsSorted-IsChronological [] s = tt
IsSorted-IsChronological (a ∷ []) s = tt
IsSorted-IsChronological (a ∷ b ∷ rest) s =
    (in_order a b s.0, IsSorted-IsChronological (b ∷ rest) s.1)

abbrev is_given : Option ℤ → Bool
is_given none = false
is_given (some t) = true

abbrev pub time_given : Result Error (Option ℤ) → Bool
time_given (ok t) = is_given t
time_given (err e) = false

module _ (p : Parsers) where
  -- The rescale is what the event says.
  pub record IsRescale (r : Rescale) (event : Json) : Type 0 where
    pub reason : is_str "SuccessfulRescale" (at ("reason" ∷ []) event) ≡ true
    pub time :
        parse_iso_to_utc p
          (or_else (at ("lastTimestamp" ∷ []) event) (at ("firstTimestamp" ∷ []) event))
        ≡ ok (some r.timestamp_utc)
    pub message : get_or "message" (str "") event ≡ ok (str r.message)
    pub size : r.new_size ≡ new_size_of p.int_of_text r.message

  rescale-IsRescale :
      (event : Json) (ts : ℤ) (message : Json) (r : Rescale)
      → is_str "SuccessfulRescale" (at ("reason" ∷ []) event) ≡ true
      → parse_iso_to_utc p
          (or_else (at ("lastTimestamp" ∷ []) event) (at ("firstTimestamp" ∷ []) event))
        ≡ ok (some ts)
      → get_or "message" (str "") event ≡ ok message
      → rescale_of p ts message ≡ ok r
      → IsRescale r event
  unfolding rescale_of
  rescale-IsRescale event ts (str s) r reason time m h =
      subst (λ x. IsRescale x event) (ok-injective {E = Error} _ _ h)
        (record { reason = reason; time = time; message = m; size = refl })
  rescale-IsRescale event ts v r reason time m h = cc

  -- What is read of one event: at most one rescale, which it says.
  event_of-All :
      (event : Json) (ts : Option ℤ) (rs : List Rescale)
      → is_str "SuccessfulRescale" (at ("reason" ∷ []) event) ≡ true
      → parse_iso_to_utc p
          (or_else (at ("lastTimestamp" ∷ []) event) (at ("firstTimestamp" ∷ []) event))
        ≡ ok ts
      → event_of p ts event ≡ ok rs
      → All (λ r. IsRescale r event) rs
  unfolding event_of
  event_of-All event none rs reason time h =
      subst (All (λ r. IsRescale r event)) (ok-injective {E = Error} _ _ h) tt
  event_of-All event (some ts) rs reason time h =
      on_ok (get_or "message" (str "") event) _ h λ message m h1.
        on_ok (rescale_of p ts message) _ h1 λ r made h2.
          subst (All (λ x. IsRescale x event)) (ok-injective {E = Error} _ _ h2)
            (rescale-IsRescale event ts message r reason time m made, tt)

  add_event-All :
      (event : Json) (rs : List Rescale)
      → add_event p event ≡ ok rs
      → All (λ r. IsRescale r event) rs
  unfolding add_event read_event
  add_event-All event rs h = on_ok (get "reason" event) _ h λ reason w h1.
      let same = ap (is_str "SuccessfulRescale") (get-at "reason" event reason w) in
      elim (Bool-cases (is_str "SuccessfulRescale" reason)) [
        | inr other ↦
            subst (All (λ r. IsRescale r event)) (ok-injective {E = Error} _ _ (rw other at h1)) tt
        | inl rescaled ↦ on_ok (get "lastTimestamp" event) _ (rw rescaled at h1) λ last l h2.
            on_ok (get "firstTimestamp" event) _ h2 λ first f h3.
              on_ok (parse_iso_to_utc p (or_else last first)) _ h3 λ ts t h4.
                event_of-All event ts rs (same ∙ rescaled)
                  (rw (get-at "lastTimestamp" event last l, get-at "firstTimestamp" event first f)
                    t)
                  h4
      ]

  rescales_of-All :
      (events : List Json) (rs : List Rescale)
      → rescales_of p events ≡ ok rs
      → All (λ r. Any (IsRescale r) events) rs
  unfolding rescales_of
  rescales_of-All [] rs h =
      subst (All (λ r. Any (IsRescale r) [])) (ok-injective {E = Error} _ _ h) tt
  rescales_of-All (event ∷ events) rs h = on_ok (add_event p event) _ h λ found here h1.
      on_ok (rescales_of p events) _ h1 λ rest there h2.
        subst (All (λ r. Any (IsRescale r) (event ∷ events))) (ok-injective {E = Error} _ _ h2) (
          All-append (λ r. Any (IsRescale r) (event ∷ events)) found rest
            (All-map found (λ r e. inl e) (add_event-All event found here))
            (All-map rest (λ r e. inr e) (rescales_of-All events rest there)))

  event_of-length :
      (event : Json) (ts : Option ℤ) (rs : List Rescale)
      → event_of p ts event ≡ ok rs
      → length rs ≡ (if is_given ts then 1 else 0)
  unfolding event_of
  event_of-length event none rs h = subst (λ l. length l ≡ 0) (ok-injective {E = Error} _ _ h) refl
  event_of-length event (some ts) rs h = on_ok (get_or "message" (str "") event) _ h λ message m h1.
      on_ok (rescale_of p ts message) _ h1
        λ r made h2. subst (λ l. length l ≡ 1) (ok-injective {E = Error} _ _ h2) refl

  -- A rescale whose time can be read.
  abbrev pub is_rescale : Json → Bool
  is_rescale event =
      is_str "SuccessfulRescale" (at ("reason" ∷ []) event)
      && time_given (
          parse_iso_to_utc p
            (or_else (at ("lastTimestamp" ∷ []) event) (at ("firstTimestamp" ∷ []) event)))

  add_event-length :
      (event : Json) (rs : List Rescale)
      → add_event p event ≡ ok rs
      → length rs ≡ (if is_rescale event then 1 else 0)
  unfolding add_event read_event
  add_event-length event rs h = on_ok (get "reason" event) _ h λ reason w h1.
      let same = ap (is_str "SuccessfulRescale") (get-at "reason" event reason w) in
      elim (Bool-cases (is_str "SuccessfulRescale" reason)) [
        | inr other ↦
            rw (same ∙ other)
              (subst (λ l. length l ≡ 0) (ok-injective {E = Error} _ _ (rw other at h1)) refl)
        | inl rescaled ↦ on_ok (get "lastTimestamp" event) _ (rw rescaled at h1) λ last l h2.
            on_ok (get "firstTimestamp" event) _ h2 λ first f h3.
              on_ok (parse_iso_to_utc p (or_else last first)) _ h3 λ ts t h4.
                rw
                  (
                    same ∙ rescaled,
                    get-at "lastTimestamp" event last l,
                    get-at "firstTimestamp" event first f,
                    t,
                  )
                  (event_of-length event ts rs h4)
      ]

  rescales_of-length :
      (events : List Json) (rs : List Rescale)
      → rescales_of p events ≡ ok rs
      → length rs ≡ count_if is_rescale events
  unfolding rescales_of
  rescales_of-length [] rs h = subst (λ l. length l ≡ 0) (ok-injective {E = Error} _ _ h) refl
  rescales_of-length (event ∷ events) rs h = on_ok (add_event p event) _ h λ found here h1.
      on_ok (rescales_of p events) _ h1 λ rest there h2.
        subst (λ l. length l ≡ count_if is_rescale (event ∷ events))
          (ok-injective {E = Error} _ _ h2)
          (omega (
            arith,
            length-append found rest,
            add_event-length event found here,
            rescales_of-length events rest there,
          ))

  -- The events of a list that was parsed, in order of time, each once.
  pub record IsHistory (v : Json) (rs : List Rescale) : Type 0 where
    pub events : List Json
    pub items : items_of v ≡ ok events
    pub sourced : All (λ r. Any (IsRescale r) events) rs
    pub complete : length rs ≡ count_if is_rescale events
    pub chronological : IsChronological rs

  abbrev pub IsLoaded : File → List Rescale × List Warning → Type 0
  IsLoaded missing r = r ≡ ([], not_found ∷ [])
  IsLoaded (unreadable e) r = r ≡ ([], parse_error e ∷ [])
  IsLoaded (parsed v) r = IsHistory v r.0 × (r.1 ≡ [])

  -- When load_events returns for a file that was parsed, its events are in order of time, each is
  -- what a SuccessfulRescale event of the file says, and there are as many as the file has of these
  -- with a time that can be read. Without such a file there is none, and a warning.
  pub load_events-IsLoaded :
      (file : File) (r : List Rescale × List Warning) → load_events p file ≡ ok r → IsLoaded file r
  unfolding load_events read_events
  load_events-IsLoaded missing r h = sym (ok-injective {E = Error} _ _ h)
  load_events-IsLoaded (unreadable e) r h = sym (ok-injective {E = Error} _ _ h)
  load_events-IsLoaded (parsed v) r h = on_ok (read_events p v) _ h λ rs read h'.
      on_ok (items_of v) _ read λ events items h1.
        on_ok (rescales_of p events) _ h1 λ found made sorted.
          subst (λ x. IsHistory v x.0 × (x.1 ≡ [])) (ok-injective {E = Error} _ _ h')
            (
              record {
                events = events;
                items = items;
                sourced =
                    sort-All less_time (λ x. Any (IsRescale x) events) found rs sorted
                      (rescales_of-All events found made);
                complete =
                    sort-length less_time found rs sorted ∙ rescales_of-length events found made;
                chronological =
                    IsSorted-IsChronological rs (sort-IsSorted less_time found rs sorted);
              },
              refl,
            )

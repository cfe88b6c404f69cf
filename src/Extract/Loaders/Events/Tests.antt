-- ===== src/Extract/Loaders/Events/Tests.antt =====
-- Two rescales of a retained list of events, given in the wrong order, beside another event.
use predictive_hpa.Prelude.{◌≡◌, refl, String, Option, some, none, List, [], ◌∷◌, ok, if◌then◌else◌}
use predictive_hpa.Prelude.Int.{ℤ, pos}
use predictive_hpa.Prelude.Sorting.{sort}
use predictive_hpa.Json.{File, parsed, Json, str, arr, obj, fields, cons, nil, get, get_or, truthy}
use predictive_hpa.Extract.Loaders.Values.{Parsers, parse_iso_to_utc}
use predictive_hpa.Extract.Loaders.Events.{
  Rescale, new_size_of, rescale_of, event_of, read_event, add_event, rescales_of, read_events,
  load_events,
}
use predictive_hpa.Extract.Loaders.Events.Sorted.{IsLoaded, load_events-IsLoaded}
use text.Mathlib.Text.{◌==◌ as str_eq}

abbrev int_of_text : String → Option ℤ
int_of_text s =
    if str_eq s "4" then some (pos 4) else (if str_eq s "12" then some (pos 12) else none)

abbrev parsers : Parsers
parsers = record {
  int_of_text = int_of_text;
  float_of_text = λ s. none;
  from_iso_format =
      λ s. if str_eq s "2026-05-26T17:01:45+00:00" then some (pos 45) else some (pos 50);
}

abbrev event : String → String → String → Json
event reason time message =
    obj (
      fields (("reason", str reason) ∷ ("lastTimestamp", str time) ∷ ("message", str message) ∷ []))

abbrev file : File
file = parsed (
    obj (
      fields (
        (
          "items",
          arr (
              cons (event "SuccessfulRescale" "2026-05-26T17:01:50Z" "New size: x; reason: cpu") (
                cons (event "Created" "2026-05-26T17:01:45Z" "pod") (
                  cons (event "SuccessfulRescale" "2026-05-26T17:01:45Z" "New size: 4; reason: cpu")
                    nil))),
        )
        ∷ [])))

abbrev rescales : List Rescale
rescales =
    record { timestamp_utc = pos 45; new_size = some (pos 4); message = "New size: 4; reason: cpu" }
    ∷ record { timestamp_utc = pos 50; new_size = none; message = "New size: x; reason: cpu" }
    ∷ []

loaded : load_events parsers file ≡ ok (rescales, [])
unfolding load_events read_events rescales_of add_event read_event event_of rescale_of new_size_of
    sort get get_or truthy parse_iso_to_utc
loaded = refl

load_events-IsLoaded_example : IsLoaded parsers file (rescales, [])
load_events-IsLoaded_example = load_events-IsLoaded parsers file (rescales, []) loaded

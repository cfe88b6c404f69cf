-- ===== src/Aggregate/Paths.antt =====
-- hack/analyze/aggregate.py, get_nested: a dotted path through nested mappings.
use Prim.Native.Char.{Char, code}
use Prim.Native.String as Text
use predictive_hpa.Prelude.{String, List, [], ◌∷◌, ◌==◌, if◌then◌else◌}
use predictive_hpa.Json.{Json, null, obj, Fields, get_field}

abbrev in_first_word : Char → List String → List String
in_first_word c [] = (Text.◌∷◌ c Text.[]) ∷ []
in_first_word c (w ∷ ws) = (Text.◌∷◌ c w) ∷ ws

-- `path.split(".")`
abbrev pub split_dots : String → List String
split_dots Text.[] = "" ∷ []
split_dots (Text.◌∷◌ c s) =
    let rest = split_dots s in if code c == b'.' then "" ∷ rest else in_first_word c rest

-- The loop over the keys. None and a value that is no mapping end the walk with None.
pub walk : List String → Json → Json
walk [] cur = cur
walk (k ∷ ks) (obj fields) = walk ks (get_field k fields)
walk (k ∷ ks) _ = null

unfoldable pub get_nested : Fields → String → Json
unfolding walk
get_nested fields path = walk (split_dots path) (obj fields)

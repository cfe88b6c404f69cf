-- ===== src/Prelude/Texts.antt =====
-- What the code asks of texts: prefixes, parts and the removal of white space, character by character.
use Prim.Native.Char.{Char, code}
use Prim.Native.String as Text
use Prim.Native.String.{String}
use Prim.Native.Nat.{ℕ}
use mathlib.Core.Bool.{Bool, true, false, ◌&&◌, ◌||◌}
use predictive_hpa.Prelude.Tests.{leb, ◌==◌, if◌then◌else◌}

-- `s.startswith(t)`
abbrev pub is_prefix : String → String → Bool
is_prefix Text.[] s = true
is_prefix (Text.◌∷◌ c t) Text.[] = false
is_prefix (Text.◌∷◌ c t) (Text.◌∷◌ d s) = (code c == code d) && is_prefix t s

-- `t in s`
abbrev pub contains : String → String → Bool
contains t Text.[] = is_prefix t ""
contains t (Text.◌∷◌ c s) = is_prefix t (Text.◌∷◌ c s) || contains t s

-- The part before the first of a character: all of the text where it has none.
abbrev pub before : ℕ → String → String
before d Text.[] = ""
before d (Text.◌∷◌ c s) = let rest = before d s in if code c == d then "" else Text.◌∷◌ c rest

-- The part from the first of a character on: nothing where the text has none.
abbrev pub from : ℕ → String → String
from d Text.[] = ""
from d (Text.◌∷◌ c s) = let rest = from d s in if code c == d then Text.◌∷◌ c s else rest

-- The characters that `strip` removes.
abbrev pub is_space : ℕ → Bool
is_space c =
    (leb 9 c && leb c 13)
    || (leb 28 c && leb c 32)
    || (leb 0x2000 c && leb c 0x200a)
    || c == 0x85
    || c == 0xa0
    || c == 0x1680
    || c == 0x2028
    || c == 0x2029
    || c == 0x202f
    || c == 0x205f
    || c == 0x3000

abbrev pub strip_left : String → String
strip_left Text.[] = ""
strip_left (Text.◌∷◌ c s) =
    let rest = strip_left s in if is_space (code c) then rest else Text.◌∷◌ c s

-- A character before the stripped rest of a text.
abbrev pub before_rest : Char → String → String
before_rest c Text.[] = if is_space (code c) then "" else Text.◌∷◌ c ""
before_rest c (Text.◌∷◌ d s) = Text.◌∷◌ c (Text.◌∷◌ d s)

abbrev pub strip_right : String → String
strip_right Text.[] = ""
strip_right (Text.◌∷◌ c s) = before_rest c (strip_right s)

-- `s.strip()`
abbrev pub strip : String → String
strip s = strip_right (strip_left s)

-- ===== src/Extract/Loaders/Events/Message.antt =====
-- hack/analyze/extract.py, load_events: the size is read back from the message that states it.
use Prim.Native.Char.{Char, code}
use Prim.Native.String as Text
use predictive_hpa.Prelude.{ℕ, ◌≤◌, String, false, ◌≡◌, refl, sym, ap, ◌∙◌, Option, ◌==◌, arith}
use predictive_hpa.Prelude.Int.{ℤ}
use text.Mathlib.TextLemmas.{nil-append, cons-append}
use predictive_hpa.Extract.Loaders.Events.{new_size_of, before_semicolon, without_mark}
use predictive_hpa.Prelude.Texts.{strip_left, strip_right, before_rest, is_space}

-- Decimal digits only.
abbrev pub IsDigits : String → Type 0
IsDigits Text.[] = Unit {0}
IsDigits (Text.◌∷◌ c s) = (b'0' ≤ code c) × (code c ≤ b'9') × IsDigits s

-- `s + t`, by recursion.
abbrev join : String → String → String
join Text.[] t = t
join (Text.◌∷◌ c s) t = Text.◌∷◌ c (join s t)

join-append : (s t : String) → join s t ≡ Text.◌++◌ s t
join-append Text.[] t = sym (nil-append t)
join-append (Text.◌∷◌ c s) t = ap (Text.◌∷◌ c) (join-append s t) ∙ sym (cons-append c s t)

before_semicolon-append : (s t : String) → IsDigits s → before_semicolon (join s (join ";" t)) ≡ s
before_semicolon-append Text.[] t d = refl
before_semicolon-append (Text.◌∷◌ c s) t d =
    let other : (code c == b';') ≡ false = ground arith in
    rw (other, before_semicolon-append s t d.2)

without_mark-digits : (s : String) → IsDigits s → without_mark 0 s ≡ s
without_mark-digits Text.[] d = refl
without_mark-digits (Text.◌∷◌ c s) d =
    let other : (b'N' == code c) ≡ false = ground arith in rw (other, without_mark-digits s d.2)

is_space-digit : (c : ℕ) → b'0' ≤ c → c ≤ b'9' → is_space c ≡ false
is_space-digit c h k = ground arith

strip_left-digits : (s : String) → IsDigits s → strip_left s ≡ s
strip_left-digits Text.[] d = refl
strip_left-digits (Text.◌∷◌ c s) d = rw (is_space-digit (code c) d.0 d.1)

before_rest-digits :
    (c : Char) (s : String) → is_space (code c) ≡ false → before_rest c s ≡ Text.◌∷◌ c s
before_rest-digits c Text.[] h = rw h
before_rest-digits c (Text.◌∷◌ e s) h = refl

strip_right-digits : (s : String) → IsDigits s → strip_right s ≡ s
strip_right-digits Text.[] d = refl
strip_right-digits (Text.◌∷◌ c s) d =
    rw (strip_right-digits s d.2) (before_rest-digits c s (is_space-digit (code c) d.0 d.1))

new_size_of-join :
    (int_of_text : String → Option ℤ) (s t : String)
    → IsDigits s
    → new_size_of int_of_text (join "New size: " (join s (join ";" t))) ≡ int_of_text s
unfolding new_size_of
new_size_of-join int_of_text s t d =
    rw (before_semicolon-append s t d, without_mark-digits s d, strip_left-digits s d)
      (ap int_of_text (strip_right-digits s d))

-- From the message "New size: <digits>;…" the size that is read is the integer of the digits.
new_size_of-message :
    (int_of_text : String → Option ℤ) (s t : String)
    → IsDigits s
    → new_size_of int_of_text (Text.◌++◌ "New size: " (Text.◌++◌ s (Text.◌++◌ ";" t)))
      ≡ int_of_text s
new_size_of-message int_of_text s t d = rw (← join-append ";" t) (
    rw (← join-append s (join ";" t))
      (rw (← join-append "New size: " (join s (join ";" t))) (new_size_of-join int_of_text s t d)))

-- ===== src/Cadence/Signals.antt =====
-- `sources` and `signal_totals` in hack/analyze/cadence.py: the observations by what they say of their
-- container sources.
pub mod Totals
mod Tests
use text.Mathlib.Text.{◌==◌ as str_eq}
use predictive_hpa.Prelude.{
  ℕ, ◌+◌, Bool, true, false, ◌||◌, ◌&&◌, not, Option, none, some, List, [], ◌∷◌, ◌++◌, ltb, leb,
  if◌then◌else◌, any_of, Result, ok, err, ◌>>=◌, ◌>>◌, raise_if, String,
}

-- The identity of a container; a part that is no text is kept as the empty one, which is refused too.
pub record Identity : Type 0 where
  pub pod : String
  pub pod_uid : String
  pub container : String
  pub runtime_id : String

-- `source_timestamp` is none where `timestamp` raises.
pub record Container : Type 0 where
  pub identity : Identity
  pub source_timestamp : Option ℕ

-- An observation; `finished_at` is none where `timestamp` raises, and `containers` is empty where it is
-- no list.
pub record Row : Type 0 where
  pub finished_at : Option ℕ
  pub is_success : Bool
  pub containers : List Container

pub data Refused : Type 0 where
  no_sources invalid_identity invalid_timestamp : Refused

abbrev pub eq_identity : Identity → Identity → Bool
eq_identity a b =
    str_eq a.pod b.pod
    && str_eq a.pod_uid b.pod_uid
    && str_eq a.container b.container
    && str_eq a.runtime_id b.runtime_id

abbrev pub has_empty_part : Identity → Bool
has_empty_part a =
    str_eq a.pod "" || str_eq a.pod_uid "" || str_eq a.container "" || str_eq a.runtime_id ""

abbrev pub Sources : Type 0
Sources = List (Identity × ℕ)

-- `result[identity]`
pub lookup : Identity → Sources → Option ℕ
lookup k [] = none
lookup k ((l, t) ∷ rest) = let found = lookup k rest in if eq_identity k l then some t else found

abbrev pub is_some {ℓ} : {A : Type ℓ} → Option A → Bool
is_some none = false
is_some (some a) = true

abbrev pub timestamp : Option ℕ → Result Refused ℕ
timestamp none = err invalid_timestamp
timestamp (some t) = ok t

-- The loop of `sources`.
pub collect : Sources → List Container → Result Refused Sources
unfolding lookup
collect result [] = ok result
collect result (c ∷ cs) = do
  raise_if (has_empty_part c.identity || is_some (lookup c.identity result)) invalid_identity
  t ← timestamp c.source_timestamp
  collect (result ++ (c.identity, t) ∷ []) cs

pub sources : Row → Result Refused Sources
unfolding collect
sources row = elim row.containers [ [] ↦ err no_sources | ◌∷◌ c cs ↦ collect [] (c ∷ cs) ]

pub data Classification : Type 0 where
  rejected strictly_advanced repeated_or_partial initial_or_changed_membership : Classification

abbrev pub same_class : Classification → Classification → Bool
same_class rejected rejected = true
same_class strictly_advanced strictly_advanced = true
same_class repeated_or_partial repeated_or_partial = true
same_class initial_or_changed_membership initial_or_changed_membership = true
same_class _ _ = false

-- `all(p(x) for x in xs)`
abbrev all_of {ℓ} : {A : Type ℓ} → (A → Bool) → List A → Bool
all_of p [] = true
all_of p (x ∷ xs) = p x && all_of p xs

-- `current.keys() == previous.keys()`
pub same_keys : Sources → Sources → Bool
unfolding lookup
same_keys current previous =
    all_of (λ (k, _). is_some (lookup k previous)) current
    && all_of (λ (k, _). is_some (lookup k current)) previous

abbrev later_than : ℕ → Option ℕ → Bool
later_than t none = false
later_than t (some u) = ltb u t

-- `all(current[key] > previous[key] for key in current)`
pub advanced : Sources → Sources → Bool
unfolding lookup
advanced current previous = all_of (λ (k, t). later_than t (lookup k previous)) current

pub classify : Option Sources → Sources → Classification
unfolding same_keys advanced
classify none current = initial_or_changed_membership
classify (some previous) current =
    if not (same_keys current previous)
    then initial_or_changed_membership
    else if advanced current previous
    then strictly_advanced
    else repeated_or_partial

-- `entire` and `window`
pub record Counts : Type 0 where
  pub accepted : ℕ
  pub rejected : ℕ
  pub advanced : ℕ
  pub repeated : ℕ
  pub initial : ℕ

abbrev pub zeros : Counts
zeros = record { accepted = 0; rejected = 0; advanced = 0; repeated = 0; initial = 0 }

-- `for key in keys: counts[key] += 1`
pub count_up : Classification → Counts → Counts
count_up rejected c = record c { rejected = c.rejected + 1 }
count_up strictly_advanced c = record c { accepted = c.accepted + 1; advanced = c.advanced + 1 }
count_up repeated_or_partial c = record c { accepted = c.accepted + 1; repeated = c.repeated + 1 }
count_up initial_or_changed_membership c = record c {
  accepted = c.accepted + 1;
  initial = c.initial + 1;
}

-- An entry of `observations`, with the time itself in place of the seconds from onset.
pub record Observation : Type 0 where
  pub finished : ℕ
  pub classification : Classification

pub record Signals : Type 0 where
  pub window : Counts
  pub entire : Counts
  pub observations : List Observation

-- The classification of a row, and the sources that the next one is compared with.
pub observe : Option Sources → Row → Result Refused (Classification × Option Sources)
unfolding sources classify
observe previous row =
    if row.is_success
    then (sources row >>= λ current. ok (classify previous current, some current))
    else ok (rejected, previous)

abbrev pub in_window : ℕ → ℕ → ℕ → Bool
in_window onset end t = leb onset t && ltb t end

-- The loop of `signal_totals`, with `observations` built from the end.
pub observe_all : ℕ → ℕ → Option Sources → Signals → List Row → Result Refused Signals
unfolding observe count_up
observe_all onset end previous acc [] = ok acc
observe_all onset end previous acc (row ∷ rows) = do
  finish ← timestamp row.finished_at
  seen ← observe previous row
  let window = if in_window onset end finish then count_up seen.0 acc.window else acc.window
  let next : Signals = record {
    window = window;
    entire = count_up seen.0 acc.entire;
    observations = acc.observations ++ record { finished = finish; classification = seen.0 } ∷ [];
  }
  observe_all onset end seen.1 next rows

pub signal_totals : ℕ → ℕ → List Row → Result Refused Signals
unfolding observe_all
signal_totals onset end rows =
    observe_all onset end none (record { window = zeros; entire = zeros; observations = [] }) rows

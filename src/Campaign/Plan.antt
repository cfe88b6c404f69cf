-- ===== src/Campaign/Plan.antt =====
-- The assignment plans: `plan` of hack/run_live_campaign.py and of hack/run_cadence_campaign.py.
pub mod Balance
use mathlib.Core.Option
use predictive_hpa.Prelude.{
  ℕ, suc, ◌+◌, ◌*◌, ◌%◌, Option, none, some, List, [], ◌∷◌, ◌++◌, map, get_elem?,
}

pub data Mode : Type 0 where
  current predictive hybrid : Mode

-- The names of the controllers in the benchmark scripts.
pub data Controller : Type 0 where
  phpa_current phpa phpa_hybrid : Controller

-- `MODES`
abbrev pub modes : List (Mode × Controller)
modes =
    (Mode.current, Controller.phpa_current)
    ∷ (Mode.predictive, Controller.phpa)
    ∷ (Mode.hybrid, Controller.phpa_hybrid)
    ∷ []

-- What the plan says of a slot; no mode stands for an index out of range.
pub record Assignment : Type 0 where
  pub slot : ℕ
  pub repeat : ℕ
  pub mode : Option (Mode × Controller)

unfoldable pub assignment : ℕ → ℕ → Assignment
assignment repeat offset = record {
  slot = repeat * 3 + offset + 1;
  repeat = repeat + 1;
  mode = get_elem? modes ((repeat + offset) % 3);
}

abbrev range_3 : List ℕ
range_3 = 0 ∷ 1 ∷ 2 ∷ []

abbrev for_each {ℓ ℓ'} : {A : Type ℓ} {B : Type ℓ'} → (A → List B) → List A → List B
for_each f [] = []
for_each f (x ∷ xs) = f x ++ for_each f xs

-- The slots of the live baseline.
unfoldable pub live_plan : List Assignment
unfolding assignment
live_plan = for_each (λ repeat. map (assignment repeat) range_3) range_3

-- A slot of the cadence pilot, all of whose slots run the mode Current.
pub record CadenceAssignment : Type 0 where
  pub slot : ℕ
  pub pair : ℕ
  pub requeue_seconds : ℕ
  pub offset_seconds : ℕ

unfoldable pub enumerate_from : ℕ → List (ℕ × ℕ × ℕ) → List CadenceAssignment
enumerate_from index [] = []
enumerate_from index ((pair, cadence, offset) ∷ rest) =
    record { slot = index; pair = pair; requeue_seconds = cadence; offset_seconds = offset }
    ∷ enumerate_from (index + 1) rest

-- The slots of the cadence pilot.
unfoldable pub cadence_plan : List CadenceAssignment
unfolding enumerate_from
cadence_plan =
    enumerate_from 1
      ((1, 30, 2) ∷ (1, 15, 2) ∷ (2, 15, 7) ∷ (2, 30, 7) ∷ (3, 30, 12) ∷ (3, 15, 12) ∷ [])

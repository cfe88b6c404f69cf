-- ===== src/Campaign/Slot.antt =====
-- A slot of a campaign (hack/run_live_campaign.py) and the exceptions that end one.
use predictive_hpa.Prelude.{Bool, true, false, Option, List}

-- The exceptions that `run` tells apart; `other` is any further subclass of Exception.
pub data Exception : Type 0 where
  os_error value_error runtime_error key_error type_error subprocess_error : Exception
  keyboard_interrupt : Exception
  other : Exception

-- `except Exception`
abbrev pub is_exception : Exception → Bool
is_exception keyboard_interrupt = false
is_exception _ = true

-- The tuple of the except clause of `run`.
abbrev pub is_handled : Exception → Bool
is_handled other = false
is_handled _ = true

-- The tuple of the except clause of the clean-up.
abbrev pub is_cleanup_error : Exception → Bool
is_cleanup_error os_error = true
is_cleanup_error runtime_error = true
is_cleanup_error subprocess_error = true
is_cleanup_error _ = false

pub data SlotStatus : Type 0 where
  not_run running success failed : SlotStatus

-- A dictionary of `status["slots"]`: what the plan says, of type A, and the keys that a run adds.
-- J is the type of JSON values; a run directory and a time are such values.
pub record Slot (J A : Type 0) : Type 0 where
  pub assignment : A
  pub status : SlotStatus
  pub started_at : Option J
  pub finished_at : Option J
  pub run_dir : Option J
  pub analysis : Bool
  pub partial_run_dirs : Option (List J)

-- `status` and `error` of the campaign; the error is kept as the exception.
pub data CampaignStatus : Type 0 where
  in_progress success failed : CampaignStatus

pub record Status (J A : Type 0) : Type 0 where
  pub slots : List (Slot J A)
  pub status : CampaignStatus
  pub error : Option Exception
  pub cleanup_error : Option Exception
  pub finished_at : Option J

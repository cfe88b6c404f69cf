-- ===== src/Campaign/Calls.antt =====
-- What `Campaign.run` (hack/run_live_campaign.py) asks of the world W: its commands, its files, and
-- the methods by which a protocol extends it. Any call may raise.
use predictive_hpa.Prelude.{Bool, true, false, ◌&&◌, Option, none, some, List}
use predictive_hpa.Prelude.Actions.{Action}
use predictive_hpa.Campaign.Slot.{Exception, Status}

-- The dictionary that `snapshot` returns: `rest` stands for the keys that are only ever compared.
pub record Snapshot (J : Type 0) : Type 0 where
  pub namespace_uid : J
  pub deployment_uid : J
  pub rest : J
  pub phpa : Option J

-- A previous terminal-state receipt, as `get` reads it.
pub record Previous (J : Type 0) : Type 0 where
  pub namespace_uid : Option J
  pub deployment_uid : Option J
  pub phpa : Option J

pub data Directory : Type 0 where
  output commands runs analysis : Directory

-- The receipts that `write_json` writes, with their contents.
pub data Receipt (J A : Type 0) : Type 0 where
  campaign_plan : Status J A → Receipt J A
  initial_state : Snapshot J → Receipt J A
  source_sha256 : J → Receipt J A
  controller_binary : J → Receipt J A
  slot_before : A → Snapshot J → Receipt J A
  slot_after : A → Snapshot J → Receipt J A
  terminal_state : Snapshot J → Receipt J A
  campaign_status : Status J A → Receipt J A

pub record Calls (W J A : Type 0) : Type 0 where
  -- `==` on JSON values
  pub same : J → J → Bool
  -- `args.context`, and the same without its prefix kind-
  pub context : J
  pub cluster : J
  pub now : W → J × W
  pub mkdir : Directory → Action Exception W (Unit {0})
  pub write : Receipt J A → Action Exception W (Unit {0})
  pub current_context : Action Exception W J
  pub kind_clusters : Action Exception W (List J)
  pub snapshot : Action Exception W (Snapshot J)
  -- `args.expected_phpa_receipt`
  pub expected_phpa_receipt : Option (Action Exception W (Previous J))
  pub source_identity : Action Exception W J
  pub make_private : Action Exception W (Unit {0})
  pub remove_private : Action Exception W (Unit {0})
  pub build_controller : Action Exception W (Unit {0})
  pub digest_binary : Action Exception W J
  pub build_extra_binaries : Action Exception W (Unit {0})
  pub configure_slot : A → Action Exception W (Unit {0})
  pub benchmark : A → Action Exception W (Unit {0})
  -- the directories under runs/
  pub list_runs : Action Exception W (List J)
  pub analyze_slot : A → J → Action Exception W (Unit {0})
  -- phpa-after-apply.json of a run, as {"uid", "spec"}
  pub applied_phpa : J → Action Exception W J
  pub stop_active : Action Exception W (Unit {0})

module _ {W J A : Type 0} (c : Calls W J A) where
  -- `==` on values that may be None
  abbrev pub same_option : Option J → Option J → Bool
  same_option none none = true
  same_option (some a) (some b) = c.same a b
  same_option _ _ = false

  -- `==` on snapshots without the key phpa
  abbrev pub same_identity : Snapshot J → Snapshot J → Bool
  same_identity s t =
      c.same s.namespace_uid t.namespace_uid
      && c.same s.deployment_uid t.deployment_uid
      && c.same s.rest t.rest

  abbrev pub same_snapshot : Snapshot J → Snapshot J → Bool
  same_snapshot s t = same_identity s t && same_option s.phpa t.phpa

-- ===== src/Campaign/Run.antt =====
-- `Campaign.run` (hack/run_live_campaign.py): the checks before the first slot, the loop over the
-- slots, and what is recorded however it ends.
pub mod Progress
pub mod Report
pub mod Returns
use predictive_hpa.Prelude.{
  ℕ, Bool, true, false, ◌&&◌, Option, none, some, List, [], ◌∷◌, map, if◌then◌else◌, any_of,
}
use predictive_hpa.Prelude.Actions.{
  Outcome, returned, raised, Action, pure, raise, update, ensure, ◌>>=◌, ◌>>◌, outside, on_rest,
  continue,
}
use predictive_hpa.Campaign.Slot.{
  Exception, is_handled, is_cleanup_error, SlotStatus, Slot, CampaignStatus, Status,
}
use predictive_hpa.Campaign.Calls.{Calls, Snapshot, Previous, Directory, Receipt, same_option}
use predictive_hpa.Campaign.Attempt.{run_slot, now}

module _ {W J A : Type 0} (c : Calls W J A) where
  -- The previous fixture, which the receipt given on the command line allows.
  unfoldable pub expected_from :
      Option (Action Exception W (Previous J)) → Snapshot J → Action Exception W (Option J)
  expected_from none initial = pure none
  expected_from (some read) initial = do
    previous ← read
    ensure
        (same_option c previous.deployment_uid (some initial.deployment_uid)
          && same_option c previous.namespace_uid (some initial.namespace_uid))
        Exception.value_error
    pure previous.phpa

  unfoldable pub expected_phpa : Snapshot J → Action Exception W (Option J)
  unfolding expected_from
  expected_phpa initial = expected_from c.expected_phpa_receipt initial

  -- The try block up to the frozen source: returns the initial snapshot and the source identity.
  unfoldable pub prepare : Action Exception W (Snapshot J × J)
  unfolding expected_phpa
  prepare = do
    active ← c.current_context
    ensure (c.same active c.context) Exception.value_error
    names ← c.kind_clusters
    ensure (any_of (c.same c.cluster) names) Exception.value_error
    initial ← c.snapshot
    c.write (Receipt.initial_state initial)
    expected ← expected_phpa initial
    ensure (same_option c initial.phpa expected) Exception.value_error
    frozen ← c.source_identity
    c.write (Receipt.source_sha256 frozen)
    pure (initial, frozen)

  abbrev pub Slots : Type 0
  Slots = List (Slot J A)

  abbrev keep_slot :
      Slot J A
      → Outcome Exception (W × Slots) (Snapshot J)
      → Outcome Exception (W × Slots) (Snapshot J)
  keep_slot s (returned a (w, ss)) = returned a (w, s ∷ ss)
  keep_slot s (raised e (w, ss)) = raised e (w, s ∷ ss)

  abbrev with_slot :
      (Snapshot J → W → Outcome Exception (W × Slots) (Snapshot J))
      → Slots
      → Outcome Exception (W × Slot J A) (Snapshot J)
      → Outcome Exception (W × Slots) (Snapshot J)
  with_slot next ss (returned current (w, s)) = keep_slot s (next current w)
  with_slot next ss (raised e (w, s)) = raised e (w, s ∷ ss)

  -- `for slot in self.status["slots"]`, with `previous`; the first exception ends it.
  unfoldable pub run_slots :
      J → J → Snapshot J → Snapshot J → Slots → W → Outcome Exception (W × Slots) (Snapshot J)
  run_slots frozen binary initial previous [] w = returned previous (w, [])
  run_slots frozen binary initial previous (s ∷ ss) w =
      with_slot (λ current w'. run_slots frozen binary initial current ss w') ss
        (run_slot c frozen binary initial previous s.assignment (w, s))

  -- The body of the with statement.
  unfoldable pub campaign_body : J → Snapshot J → Action Exception (W × Slots) (Unit {0})
  unfolding run_slots
  campaign_body frozen initial = do
    outside c.build_controller
    binary ← outside c.digest_binary
    receipt ← outside c.digest_binary
    outside (c.write (Receipt.controller_binary receipt))
    outside c.build_extra_binaries
    previous ← λ (w, ss). run_slots frozen binary initial initial ss w
    outside (c.write (Receipt.terminal_state previous))

  -- The end of the with statement, which removes the private directory.
  abbrev pub close_private :
      Outcome Exception (W × Slots) (Unit {0}) → Outcome Exception (W × Slots) (Unit {0})
  close_private (returned a s) = outside c.remove_private s
  close_private (raised e s) = (outside c.remove_private >>= λ _. raise e) s

  unfoldable pub try_block : Action Exception (W × Slots) (Unit {0})
  unfolding prepare campaign_body
  try_block = do
    start ← outside prepare
    outside c.make_private
    λ s. close_private (campaign_body start.1 start.0 s)

  abbrev pub caught_stop :
      Status J A → Outcome Exception W (Unit {0}) → Outcome Exception (W × Status J A) (Unit {0})
  caught_stop st (returned _ w) = returned tt (w, st)
  caught_stop st (raised e w) =
      if is_cleanup_error e
      then returned tt (w, record st { status = CampaignStatus.failed; cleanup_error = some e })
      else raised e (w, st)

  -- `stop_active` with its except clause
  unfoldable pub stop_owned : Action Exception (W × Status J A) (Unit {0})
  stop_owned (w, st) = caught_stop st (c.stop_active w)

  abbrev pub not_running : SlotStatus → SlotStatus
  not_running SlotStatus.running = SlotStatus.failed
  not_running status = status

  abbrev pub fail_running : Slot J A → Slot J A
  fail_running s = record s { status = not_running s.status }

  abbrev pub exit_code : CampaignStatus → ℕ
  exit_code CampaignStatus.success = 0
  exit_code _ = 3

  -- After the finally clause: an exception that is not handled goes on.
  abbrev pub conclude : Option Exception → Action Exception (W × Status J A) ℕ
  conclude none (w, st) = returned (exit_code st.status) (w, st)
  conclude (some e) s = raised e s

  -- The finally clause and the return.
  unfoldable pub finish : Option Exception → Action Exception (W × Status J A) ℕ
  unfolding stop_owned
  finish pending = do
    stop_owned
    on_rest (λ st. record st { slots = map fail_running st.slots })
    t ← outside (now c)
    on_rest (λ st. record st { finished_at = some t })
    λ (w, st). outside (c.write (Receipt.campaign_status st)) (w, st)
    conclude pending

  abbrev pub status_of : Slots → CampaignStatus → Option Exception → Status J A
  status_of ss status error = record {
    slots = ss;
    status = status;
    error = error;
    cleanup_error = none;
    finished_at = none;
  }

  -- The except clause of `run`, and the finally clause after it.
  unfoldable pub settle :
      Outcome Exception (W × Slots) (Unit {0}) → Outcome Exception (W × Status J A) ℕ
  unfolding finish
  settle (returned _ (w, ss)) = finish none (w, status_of ss CampaignStatus.success none)
  settle (raised e (w, ss)) =
      if is_handled e
      then finish none (w, status_of ss CampaignStatus.failed (some e))
      else finish (some e) (w, status_of ss CampaignStatus.in_progress none)

  -- A slot of the plan.
  abbrev pub planned : A → Slot J A
  planned a = record {
    assignment = a;
    status = SlotStatus.not_run;
    started_at = none;
    finished_at = none;
    run_dir = none;
    analysis = false;
    partial_run_dirs = none;
  }

  -- The directories and the plan's receipt, before the try block.
  unfoldable pub create_output : Slots → Action Exception W (Unit {0})
  create_output ss = do
    c.mkdir Directory.output
    c.mkdir Directory.commands
    c.mkdir Directory.runs
    c.mkdir Directory.analysis
    c.write (Receipt.campaign_plan (status_of ss CampaignStatus.in_progress none))

  unfoldable pub started :
      Slots → Outcome Exception W (Unit {0}) → Outcome Exception (W × Status J A) ℕ
  unfolding try_block settle
  started slots (returned _ w) = settle (try_block (w, slots))
  started slots (raised e w) = raised e (w, status_of slots CampaignStatus.in_progress none)

  unfoldable pub run : List A → W → Outcome Exception (W × Status J A) ℕ
  unfolding create_output started
  run plan w = let slots = map planned plan in started slots (create_output slots w)

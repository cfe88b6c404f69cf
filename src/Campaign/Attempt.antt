-- ===== src/Campaign/Attempt.antt =====
-- One round of the loop over the slots of `Campaign.run` (hack/run_live_campaign.py).
pub mod Complete
pub mod Handled
use predictive_hpa.Prelude.{
  ℕ, Bool, true, false, not, ◌&&◌, Option, none, some, List, [], ◌∷◌, map, if◌then◌else◌, keep_if,
  any_of,
}
use predictive_hpa.Prelude.Actions.{
  Outcome, returned, raised, Action, pure, raise, update, ensure, ◌>>=◌, ◌>>◌, outside, on_rest,
  continue,
}
use predictive_hpa.Campaign.Slot.{
  Exception, value_error, is_exception, is_handled, is_cleanup_error, SlotStatus, Slot,
  CampaignStatus, Status,
}
use predictive_hpa.Campaign.Calls.{
  Calls, Snapshot, Previous, Directory, Receipt, same_option, same_identity, same_snapshot,
}

module _ {W J A : Type 0} (c : Calls W J A) where
  -- A call of the world while a slot is at work: the state is the world and the slot.
  abbrev pub Work : Type 0 → Type 0
  Work B = Action Exception (W × Slot J A) B

  abbrev pub now : Action Exception W J
  now w = let (t, w') = c.now w in returned t w'

  -- `set(runs.iterdir()) - before`
  abbrev pub new_runs : List J → Action Exception W (List J)
  new_runs before = do runs ← c.list_runs; pure (keep_if (λ r. not (any_of (c.same r) before)) runs)

  -- `if len(created) != 1: raise ValueError`, and its element
  abbrev pub the_only : List J → Work J
  the_only (run ∷ []) = pure run
  the_only _ = raise Exception.value_error

  -- The try block of a slot, which returns the terminal snapshot.
  unfoldable pub slot_body : J → Snapshot J → A → List J → Work (Snapshot J)
  slot_body frozen initial slot before = do
    outside (c.configure_slot slot)
    outside (c.benchmark slot)
    created ← outside (new_runs before)
    run ← the_only created
    on_rest (λ s. record s { run_dir = some run })
    source ← outside c.source_identity
    ensure (c.same source frozen) Exception.value_error
    outside (c.analyze_slot slot run)
    on_rest (λ s. record s { analysis = true })
    previous ← outside c.snapshot
    ensure (same_identity c previous initial) Exception.value_error
    applied ← outside (c.applied_phpa run)
    ensure (same_option c previous.phpa (some applied)) Exception.value_error
    outside (c.write (Receipt.slot_after slot previous))
    t ← outside now
    on_rest (λ s. record s { status = SlotStatus.success; finished_at = some t })
    pure previous

  -- The except clause of a slot, which raises again.
  unfoldable pub slot_failed : List J → Exception → Work (Snapshot J)
  slot_failed before e = do
    t ← outside now
    on_rest (λ s. record s { status = SlotStatus.failed; finished_at = some t })
    partial ← outside (new_runs before)
    on_rest (λ s. record s { partial_run_dirs = some partial })
    raise e

  -- `try` with its `except Exception`
  abbrev pub catch :
      (Exception → Work (Snapshot J))
      → Outcome Exception (W × Slot J A) (Snapshot J)
      → Outcome Exception (W × Slot J A) (Snapshot J)
  catch handler (returned a s) = returned a s
  catch handler (raised e s) = if is_exception e then handler e s else raised e s

  unfoldable pub guarded_body : J → Snapshot J → A → List J → Work (Snapshot J)
  unfolding slot_body slot_failed
  guarded_body frozen initial slot before s =
      catch (slot_failed before) (slot_body frozen initial slot before s)

  -- One round of the loop over the slots; `binary` is the digest of the controller.
  unfoldable pub run_slot : J → J → Snapshot J → Snapshot J → A → Work (Snapshot J)
  unfolding guarded_body
  run_slot frozen binary initial previous slot = do
    source ← outside c.source_identity
    ensure (c.same source frozen) Exception.value_error
    digest ← outside c.digest_binary
    ensure (c.same digest binary) Exception.value_error
    current ← outside c.snapshot
    ensure (same_snapshot c current previous) Exception.value_error
    t ← outside now
    on_rest (λ s. record s { status = SlotStatus.running; started_at = some t })
    outside (c.write (Receipt.slot_before slot current))
    before ← outside c.list_runs
    guarded_body frozen initial slot before

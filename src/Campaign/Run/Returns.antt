-- ===== src/Campaign/Run/Returns.antt =====
-- When `Campaign.run` (hack/run_live_campaign.py) returns an exit code.
use predictive_hpa.Prelude.{ℕ, ◌≡◌, refl, Option, none, some, List, [], ◌∷◌, map}
use predictive_hpa.Prelude.Actions.{Outcome, returned, raised, Action, outside, raise}
use predictive_hpa.Prelude.Raises.{
  Raised, OnlyRaises, OnlyRaises-bind, OnlyRaises-pure, OnlyRaises-raise, OnlyRaises-ensure,
  OnlyRaises-outside, OnlyRaises-on_rest,
}
use predictive_hpa.Campaign.Slot.{Exception, Slot, CampaignStatus, Status}
use predictive_hpa.Campaign.Calls.{Calls, Snapshot, Previous, Receipt, Directory}
use predictive_hpa.Campaign.Attempt.{run_slot}
use predictive_hpa.Campaign.Run.Report.{Reported, run-Reported}
use predictive_hpa.Campaign.Run.{
  expected_phpa, expected_from, prepare, Slots, keep_slot, with_slot, run_slots, campaign_body,
  close_private, try_block, caught_stop, stop_owned, conclude, finish, status_of, settle,
  create_output, planned, started, run,
}
use predictive_hpa.Campaign.Attempt.Handled.{
  Handled, Cleanup, Never, IsHandling, call, now-OnlyRaises, run_slot-OnlyRaises,
}

module _ {W J A : Type 0} (c : Calls W J A) (h : IsHandling c) where
  keep_slot-Raised :
      (s : Slot J A) (o : Outcome Exception (W × Slots c) (Snapshot J))
      → Raised Handled o
      → Raised Handled (keep_slot c s o)
  keep_slot-Raised s (returned x st) p = tt
  keep_slot-Raised s (raised e st) p = p

  with_slot-Raised :
      (next : Snapshot J → W → Outcome Exception (W × Slots c) (Snapshot J)) (ss : Slots c)
      (o : Outcome Exception (W × Slot J A) (Snapshot J))
      → ((x : Snapshot J) (w : W) → Raised Handled (next x w))
      → Raised Handled o
      → Raised Handled (with_slot c next ss o)
  with_slot-Raised next ss (returned x (w, s)) k p = keep_slot-Raised s (next x w) (k x w)
  with_slot-Raised next ss (raised e (w, s)) k p = p

  run_slots-Raised :
      (frozen binary : J) (initial previous : Snapshot J) (ss : Slots c) (w : W)
      → Raised Handled (run_slots c frozen binary initial previous ss w)
  unfolding run_slots OnlyRaises
  run_slots-Raised frozen binary initial previous [] w = tt
  run_slots-Raised frozen binary initial previous (s ∷ ss) w =
      with_slot-Raised _ ss (run_slot c frozen binary initial previous s.assignment (w, s))
        (λ x w'. run_slots-Raised frozen binary initial x ss w')
        (run_slot-OnlyRaises c h frozen binary initial previous s.assignment (w, s))

  loop-OnlyRaises :
      (frozen binary : J) (initial : Snapshot J)
      → OnlyRaises {S = W × Slots c} Handled
          (λ (w, ss). run_slots c frozen binary initial initial ss w)
  unfolding OnlyRaises
  loop-OnlyRaises frozen binary initial (w, ss) =
      run_slots-Raised frozen binary initial initial ss w

  campaign_body-OnlyRaises :
      (frozen : J) (initial : Snapshot J) → OnlyRaises Handled (campaign_body c frozen initial)
  unfolding campaign_body
  campaign_body-OnlyRaises frozen initial = call c h _ _ h.build_controller λ _.
      call c h _ _ h.digest_binary λ binary. call c h _ _ h.digest_binary λ receipt.
        call c h _ _ (h.write (Receipt.controller_binary receipt)) λ _.
          call c h _ _ h.build_extra_binaries λ _.
            OnlyRaises-bind Handled _ _ (loop-OnlyRaises frozen binary initial) λ previous.
              OnlyRaises-outside W (Slots c) Handled _ (h.write (Receipt.terminal_state previous))

  close_private-Raised :
      (o : Outcome Exception (W × Slots c) (Unit {0}))
      → Raised Handled o
      → Raised Handled (close_private c o)
  unfolding OnlyRaises
  close_private-Raised (returned x s) p =
      OnlyRaises-outside W (Slots c) Handled c.remove_private h.remove_private s
  close_private-Raised (raised e s) p =
      call c h c.remove_private (λ _. raise e) h.remove_private
        (λ _. OnlyRaises-raise (W × Slots c) Handled (Unit {0}) e p) s

  closed-OnlyRaises :
      (m : Action Exception (W × Slots c) (Unit {0}))
      → OnlyRaises Handled m
      → OnlyRaises Handled (λ s. close_private c (m s))
  unfolding OnlyRaises
  closed-OnlyRaises m o s = close_private-Raised (m s) (o s)

  expected_from-OnlyRaises :
      (initial : Snapshot J) (o : Option (Action Exception W (Previous J)))
      → c.expected_phpa_receipt ≡ o
      → OnlyRaises Handled (expected_from c o initial)
  unfolding expected_from
  expected_from-OnlyRaises initial none e = OnlyRaises-pure W Handled none
  expected_from-OnlyRaises initial (some read) e =
      OnlyRaises-bind Handled read _ (h.expected_phpa read e) λ previous.
        OnlyRaises-bind Handled _ _ (OnlyRaises-ensure W Handled _ Exception.value_error refl)
          λ _. OnlyRaises-pure W Handled previous.phpa

  prepare-OnlyRaises : OnlyRaises Handled (prepare c)
  unfolding prepare expected_phpa
  prepare-OnlyRaises = OnlyRaises-bind Handled _ _ h.current_context λ active.
      OnlyRaises-bind Handled _ _ (OnlyRaises-ensure W Handled _ Exception.value_error refl) λ _.
        OnlyRaises-bind Handled _ _ h.kind_clusters λ names.
          OnlyRaises-bind Handled _ _ (OnlyRaises-ensure W Handled _ Exception.value_error refl)
            λ _. OnlyRaises-bind Handled _ _ h.snapshot λ initial.
              OnlyRaises-bind Handled _ _ (h.write (Receipt.initial_state initial)) λ _.
                OnlyRaises-bind Handled _ _
                  (expected_from-OnlyRaises initial c.expected_phpa_receipt refl)
                  λ expected.
                    OnlyRaises-bind Handled _ _
                      (OnlyRaises-ensure W Handled _ Exception.value_error refl)
                      λ _. OnlyRaises-bind Handled _ _ h.source_identity λ frozen.
                        OnlyRaises-bind Handled _ _ (h.write (Receipt.source_sha256 frozen))
                          λ _. OnlyRaises-pure W Handled (initial, frozen)

  try_block-OnlyRaises : OnlyRaises Handled (try_block c)
  unfolding try_block
  try_block-OnlyRaises = call c h _ _ prepare-OnlyRaises λ start.
      call c h _ _ h.make_private
        λ _. closed-OnlyRaises _ (campaign_body-OnlyRaises start.1 start.0)

  caught_stop-Raised :
      (st : Status J A) (o : Outcome Exception W (Unit {0}))
      → Raised Cleanup o
      → Raised Never (caught_stop c st o)
  caught_stop-Raised st (returned x w) p = tt
  caught_stop-Raised st (raised e w) p = rw p tt

  stop_owned-OnlyRaises : OnlyRaises Never (stop_owned c)
  unfolding OnlyRaises stop_owned
  stop_owned-OnlyRaises (w, st) = caught_stop-Raised st (c.stop_active w) (h.stop_active w)

  written-OnlyRaises :
      OnlyRaises {S = W × Status J A} Never
        (λ (w, st). outside (c.write (Receipt.campaign_status st)) (w, st))
  unfolding OnlyRaises
  written-OnlyRaises (w, st) =
      OnlyRaises-outside W (Status J A) Never (c.write (Receipt.campaign_status st))
        (h.write_status st) (w, st)

  conclude-OnlyRaises : OnlyRaises Never (conclude c none)
  unfolding OnlyRaises
  conclude-OnlyRaises (w, st) = tt

  finish-OnlyRaises : OnlyRaises Never (finish c none)
  unfolding finish
  finish-OnlyRaises = OnlyRaises-bind Never _ _ stop_owned-OnlyRaises λ _.
      OnlyRaises-bind Never _ _ (OnlyRaises-on_rest W (Status J A) Never _) λ _.
        OnlyRaises-bind Never _ _
          (OnlyRaises-outside W (Status J A) Never _ (now-OnlyRaises c h Never))
          λ t.
            OnlyRaises-bind Never _ _ (OnlyRaises-on_rest W (Status J A) Never _)
              λ _. OnlyRaises-bind Never _ _ written-OnlyRaises λ _. conclude-OnlyRaises

  settle-Raised :
      (o : Outcome Exception (W × Slots c) (Unit {0}))
      → Raised Handled o
      → Raised Never (settle c o)
  unfolding settle OnlyRaises
  settle-Raised (returned x (w, ss)) p =
      finish-OnlyRaises (w, status_of c ss CampaignStatus.success none)
  settle-Raised (raised e (w, ss)) p =
      rw p (finish-OnlyRaises (w, status_of c ss CampaignStatus.failed (some e)))

  create_output-OnlyRaises : (ss : Slots c) → OnlyRaises Never (create_output c ss)
  unfolding create_output
  create_output-OnlyRaises ss = OnlyRaises-bind Never _ _ (h.mkdir Directory.output) λ _.
      OnlyRaises-bind Never _ _ (h.mkdir Directory.commands) λ _.
        OnlyRaises-bind Never _ _ (h.mkdir Directory.runs)
          λ _. OnlyRaises-bind Never _ _ (h.mkdir Directory.analysis) λ _. h.write_plan _

  started-Raised :
      (ss : Slots c) (o : Outcome Exception W (Unit {0}))
      → Raised Never o
      → Raised Never (started c ss o)
  unfolding started OnlyRaises
  started-Raised ss (returned x w) p =
      settle-Raised (try_block c (w, ss)) (try_block-OnlyRaises (w, ss))
  started-Raised ss (raised e w) p = absurd p

  run-Raised : (plan : List A) (w : W) → Raised Never (run c plan w)
  unfolding run OnlyRaises
  run-Raised plan w =
      let slots = map (planned c) plan in
      started-Raised slots (create_output c slots w) (create_output-OnlyRaises slots w)

Raised-Never :
    {S B : Type 0} (o : Outcome Exception S B)
    → Raised Never o
    → (b : B) × (s : S) × (o ≡ returned b s)
Raised-Never (returned b s) p = (b, s, refl)
Raised-Never (raised e s) p = absurd p

-- In a world whose calls raise only exceptions that `run` handles, whose clean-up raises only those that
-- the clean-up handles, and where the directories, the plan and the final status can be written, a
-- campaign always returns an exit code, which is 0 or 3, with the slots and the status recorded as that
-- code says.
pub run-IsHandling :
    {W J A : Type 0} (c : Calls W J A) (plan : List A) (w : W)
    → IsHandling c
    → (code : ℕ) × (s : W × Status J A) × (run c plan w ≡ returned code s)
      × Reported c plan code s.1
run-IsHandling c plan w h =
    let (code, s, e) = Raised-Never (run c plan w) (run-Raised c h plan w) in
    (code, s, e, run-Reported c plan w s.0 code s.1 e)

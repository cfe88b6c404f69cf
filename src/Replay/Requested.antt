-- ===== src/Replay/Requested.antt =====
-- `check_requested_observations` in hack/analyze/decision_replay.py: the replicas that the API showed
-- against the controller's writes. Times are microseconds.
pub mod Possible
pub mod Accepted
mod Tests
use predictive_hpa.Prelude.{
  ℕ, ◌+◌, Bool, true, false, ◌||◌, ◌&&◌, not, Option, none, some, List, [], ◌∷◌, ltb, leb, ◌==◌,
  if◌then◌else◌, any_of, Result, ok, err, ◌>>=◌, ◌>>◌, raise_if,
}

-- A successful write of the scale.
pub record Write : Type 0 where
  pub started : ℕ
  pub finished : ℕ
  pub old : ℕ
  pub new : ℕ

-- A row of the observer: whether it is a successful state, the interval of its read of the Deployment
-- and the replicas that this showed. The interval is none where `read_interval` raises.
pub record State : Type 0 where
  pub is_success : Bool
  pub interval : Option (ℕ × ℕ)
  pub replicas : ℕ

pub data Refused : Type 0 where
  invalid_interval out_of_order disagrees : Refused

-- The loop that finds the count before a read.
pub preceding : ℕ → List Write → ℕ → ℕ
preceding n [] start = n
preceding n (w ∷ ws) start = preceding (if ltb w.finished start then w.new else n) ws start

abbrev pub overlaps : ℕ → ℕ → Write → Bool
overlaps start end w = leb w.started end && leb start w.finished

-- What the writes that overlap a read add to the candidates.
pub touched : ℕ → ℕ → List Write → List ℕ
touched start end [] = []
touched start end (w ∷ ws) =
    let rest = touched start end ws in if overlaps start end w then w.old ∷ w.new ∷ rest else rest

pub candidates : ℕ → List Write → ℕ → ℕ → List ℕ
unfolding preceding touched
candidates initial writes start end = preceding initial writes start ∷ touched start end writes

pub record Checked : Type 0 where
  pub checked : ℕ
  pub overlapping : ℕ

abbrev pub read : Option (ℕ × ℕ) → Result Refused (ℕ × ℕ)
read none = err invalid_interval
read (some i) = ok i

abbrev pub starts_before : ℕ → Option ℕ → Bool
starts_before start none = false
starts_before start (some last) = ltb start last

-- One successful state: where its read starts, and whether writes overlap it.
pub check_state : ℕ → List Write → Option ℕ → State → Result Refused (ℕ × Bool)
unfolding candidates
check_state initial writes last s = do
  interval ← read s.interval
  raise_if (starts_before interval.0 last || ltb interval.1 interval.0) out_of_order
  raise_if (not (any_of (λ n. s.replicas == n) (candidates initial writes interval.0 interval.1)))
      disagrees
  ok (interval.0, any_of (overlaps interval.0 interval.1) writes)

-- The loop over the states; `last` is none for minus infinity.
pub check_states : ℕ → List Write → Option ℕ → Checked → List State → Result Refused Checked
unfolding check_state
check_states initial writes last acc [] = ok acc
check_states initial writes last acc (s ∷ ss) =
    if not s.is_success
    then check_states initial writes last acc ss
    else (check_state initial writes last s >>= λ seen.
        check_states initial writes (some seen.0)
          (record {
            checked = acc.checked + 1;
            overlapping = acc.overlapping + (if seen.1 then 1 else 0);
          })
          ss)

pub check_requested_observations : List State → List Write → ℕ → Result Refused Checked
unfolding check_states
check_requested_observations states writes initial =
    check_states initial writes none (record { checked = 0; overlapping = 0 }) states

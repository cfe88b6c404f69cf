-- ===== src/Lib.antt =====
-- Verification of the experiment tooling of predictive-hpa: the Python programs under hack/ that run
-- benchmark campaigns, extract metrics from what was retained, and decide which runs may be compared.
-- The Go controller (internal/, cmd/, api/) is not modelled here.
--
-- Parts. hack/run_live_campaign.py and hack/run_cadence_campaign.py run a plan of experiments, one
-- slot after another. An experiment leaves a directory of receipts, logs and samples, which
-- hack/analyze/extract.py turns into scalar metrics, hack/analyze/cadence.py into totals of what an
-- observer saw, and hack/analyze/decision_replay.py into the inputs of the controller's decisions.
-- hack/analyze/aggregate.py compares many extracts of one kind by scenario; hack/analyze/latency.py
-- finds the reconciliation cycles in a controller's log and the schedule of a load; and
-- hack/analyze/live_baseline.py checks that a run's plan and evidence agree before it is analyzed.
--
-- Files.
-- Prelude - names passed on from the libraries; tests on numbers, lists, signed integers, results;
--   Python's dicts (Prelude.Dicts), its stable sort (Prelude.Sorting), tests on texts (Prelude.Texts).
-- Float - Python's `float`, exactly, as far as the code compares, truncates and checks such values;
--   Float.Order is the order of the numbers among them. Its operations are a parameter where they
--   are used.
-- Json - the values that `json.loads` and `yaml.safe_load` give, with Python's equality, truth, order
--   and accesses, and a file as missing, unreadable or parsed.
-- Timeline - replica samples as a step function of the second (`held`), its integral over a range
--   (Timeline.Integral), and the loop that weighs each sample by the seconds for which it holds
--   (Timeline.Hold). These are specifications, and model no code of their own.
-- Extract - hack/analyze/extract.py. Extract.Window is the first part of
--   `compute_controlled_measurement`, which validates the receipts; Extract.Measurement is the rest of
--   it: `timeline` the checks on the samples, `events` the loop over changes, `accumulate` the loop
--   over the sums; Extract.Measurement.Report is the dictionary that it returns.
--   Extract.Scaling is `compute_scaling_metrics`, whose events and milestones come from the unchecked
--   samples of the whole experiment. Extract.Decisions is `compute_phpa_metrics` and
--   `compute_first_upscale_decision`, on the entries of the controller's log. Extract.Treatment is
--   the checks on what a run was given. Extract.Loaders has a module for each loader of a retained
--   file: K6, Events, Prom and ControllerLog, with the values that they share and `percentile`.
--   Extract.Resources is `compute_resource_metrics`.
-- Campaign - hack/run_live_campaign.py and hack/run_cadence_campaign.py. Campaign.Plan is `plan` of
--   both; Campaign.Slot a slot and the status of a campaign; Campaign.Calls what `Campaign.run` asks of
--   the world (commands, files, `snapshot`, the methods that a protocol overrides), as a record of
--   actions on a world that is a parameter; Campaign.Attempt one round of its loop; Campaign.Run the
--   whole of `run`, with its except and finally clauses.
-- Cadence - hack/analyze/cadence.py. Cadence.Signals is `sources` and `signal_totals`, Cadence.Queries
--   `observation_queries` and `query_totals`, Cadence.Sampling `observer_sampling`, on the rows of the
--   pilot's observer.
-- Aggregate - hack/analyze/aggregate.py. Aggregate.Loading is `load_extracts`, Aggregate.Groups the
--   groups by scenario and their order, Aggregate.Pilot the checks on the extracts of a pilot,
--   Aggregate.Effects the comparison of two variants, Aggregate.Paths the lookup of a metric.
-- Latency - hack/analyze/latency.py. Latency.Values is `epoch`, Latency.Cycles the cycles of the
--   controller's log, Latency.Schedule `scenario_schedule`, Latency.Occupancy
--   `scenario_occupancy`.
-- LiveBaseline - hack/analyze/live_baseline.py. LiveBaseline.Plan is `validate_plan`,
--   LiveBaseline.Samples `read_interval` and `samples`, LiveBaseline.Marker `schedule` from the parsed
--   markers on. `validate_evidence` is LiveBaseline.Evidence, whose groups of checks are
--   LiveBaseline.Identity (the run), States (the observed states) and Anchor (the warm start).
--   LiveBaseline.Business is `business_evidence`, on the load generator's points, and
--   LiveBaseline.Completion the receipts and the summary that it compares them with.
--   LiveBaseline.Occupancy is `integrate` and `readiness_evidence`, on the readings, and
--   LiveBaseline.Observations what `analyze` reads off the readings and the cycles itself.
--   LiveBaseline.Analysis is `analyze` as a whole, and its call in `main`.
--   LiveBaseline.Refusal has the exceptions of these checks, and LiveBaseline.Checks their form.
-- Replay - hack/analyze/decision_replay.py. Replay.History is `history_series`,
--   Replay.Requested `check_requested_observations`.
--
-- State. Code that changes state and may raise is an action on that state (Prelude.Actions), which
-- returns or raises in a new state; the rules there say what holds after a sequence of actions. A
-- proof about code that returned is a `do` block over Prelude.Inversion, with a line for each step.
--
-- Numbers. Unix seconds are natural numbers. Integers that the code reads from files before checking
-- them are signed. Sample values are floats, which the code checks to be whole before it computes with
-- them; the sums are then sums of whole numbers. The rounding of the values that
-- Extract.Measurement reports is not modelled: an average is kept as its numerator and denominator.
--
-- The times of the controller's log, of the observer, of the histories and of the writes are whole
-- microseconds, and their comparisons exact. In Latency and LiveBaseline a time is the float that `epoch`
-- gives; an integer of a plan that is computed with is taken as the float of its value.
--
-- Loops are recursions on the lists that the code iterates over, so none needs fuel.
--
-- Not modelled. The parsers are not: a model starts from the values that they gave. `json.loads` of a
-- line, the reading of a time or a number out of a text, Python's `str` of a value, the arithmetic of
-- floats and `statistics.mean` are parameters, where a function uses them. A list that is
-- sorted by its floats is taken to hold no NaN. The text of a file is taken to be valid UTF-8, and no
-- change of a time to UTC to leave the calendar. The rendering of tables is left out. The calls of a
-- campaign may do anything to the world and raise anything; where a theorem needs more of them, it is a
-- field of the record IsHandling (Campaign.Attempt.Handled). Of the other programs under hack/, of the
-- functions not named above, and of plots, shell scripts and configuration nothing is modelled.
pub mod Replay
pub mod Json
pub mod Aggregate
pub mod Latency
pub mod LiveBaseline
pub mod Cadence
pub mod Campaign
pub mod Prelude
pub mod Float
pub mod Extract
pub mod Timeline

-- ===== src/Extract/Window/Tests.antt =====
-- Runs of the window check of hack/analyze/extract.py on a small recorded scenario, and the theorems
-- at that scenario.
use predictive_hpa.Prelude.{◌≡◌, refl, some, ok, err, ◌↔◌}
use predictive_hpa.Prelude.Int.{pos, negsuc, ◌+ℤ◌, ◌-ℤ◌}
use predictive_hpa.Extract.Window.{
  Receipts, Window, window, given, absent, scheduled, agrees, pattern_load_duration,
  boundary_mismatch,
}
use predictive_hpa.Extract.Window.Bounds.{Accepts, window-iff_Accepts}

abbrev receipts : Receipts
receipts = record {
  runner_start = given (pos 1000);
  runner_end = given (pos 1212);
  pattern = some "step";
  post_load_tail_seconds = given (pos 360);
  observation_end_time = given (pos 1571);
  end_time = given (pos 1580);
  load_start_time = given (pos 1030);
  offered_load_end_time = absent;
}

abbrev step_window : Window
step_window = record {
  runner_start = 1000;
  runner_end = 1212;
  onset = 1030;
  offered_end = 1211;
  tail_end = 1571;
}

window_runs : window receipts ≡ ok step_window
unfolding window scheduled agrees pattern_load_duration ◌+ℤ◌ ◌-ℤ◌
window_runs = refl

window_refuses :
    window (record receipts { observation_end_time = given (negsuc 3) }) ≡ err boundary_mismatch
unfolding window scheduled agrees pattern_load_duration ◌+ℤ◌ ◌-ℤ◌
window_refuses = refl

window-iff_Accepts_example : (window receipts ≡ ok step_window) ↔ Accepts receipts step_window
window-iff_Accepts_example = window-iff_Accepts receipts step_window

receipts_say : Accepts receipts step_window
receipts_say = window-iff_Accepts_example.0 window_runs

-- ===== src/Extract/Window/Bounds.antt =====
-- What an accepted window of `compute_controlled_measurement` satisfies, and when one is accepted.
use mathlib.Core.Path.{subst}
use predictive_hpa.Prelude.{
  ℕ, ◌+◌, Bool, false, ◌||◌, not, ◌≤◌, ◌<◌, ◌≡◌, refl, ap, inl, inr, ok-injective, String, Option,
  none, some, arith, ok, ◌⊎◌, ◌↔◌, ◌∙◌,
}
use predictive_hpa.Prelude.Inversion.{◌>>=◌, returned, not_raised}
use predictive_hpa.Prelude.Int.{ℤ, pos, negsuc, ◌+ℤ◌, ◌-ℤ◌, ltb_ℤ, leb_ℤ, eq_ℤ}
use predictive_hpa.Extract.Window.{
  Field, absent, malformed, schedule_not_covered, boundary_mismatch, ended_early, onset_disagrees,
  load_end_disagrees, given, Receipts, Window, Unavailable, window, pattern_load_duration, read,
  scheduled, agrees,
}

-- The times of an accepted window, from the runner's start and the pattern's schedule.
pub record Fits (schedule : ℕ) (w : Window) : Type 0 where
  pub started : 0 < w.runner_start
  pub onset : w.onset ≡ w.runner_start + 30
  pub offered_end : w.offered_end ≡ w.runner_start + schedule
  pub tail_end : w.tail_end ≡ w.offered_end + 360
  pub covered : w.offered_end ≤ w.runner_end + 2

-- A key that is left out, or agrees.
abbrev pub AgreesWith : Field → ℕ → Type 0
AgreesWith f t = (f ≡ absent) ⊎ (f ≡ given (pos t))

-- What the receipts say of an accepted window.
pub record Accepts (r : Receipts) (w : Window) : Type 0 where
  pub pattern : String
  pub schedule : ℕ
  pub ended : ℕ
  pub pattern_given : r.pattern ≡ some pattern
  pub pattern_known : pattern_load_duration pattern ≡ some schedule
  pub fits : Fits schedule w
  pub start_given : r.runner_start ≡ given (pos w.runner_start)
  pub stop_given : r.runner_end ≡ given (pos w.runner_end)
  pub tail_given : r.post_load_tail_seconds ≡ given (pos 360)
  pub end_given : r.observation_end_time ≡ given (pos w.tail_end)
  pub ended_given : r.end_time ≡ given (pos ended)
  pub collected : w.tail_end ≤ ended
  pub load_start : AgreesWith r.load_start_time w.onset
  pub load_end : AgreesWith r.offered_load_end_time w.offered_end

pattern_load_duration-le : (p : String) {s : ℕ} → pattern_load_duration p ≡ some s → 211 ≤ s
unfolding pattern_load_duration
pattern_load_duration-le p h = ground arith

read-eq-ok : (f : Field) {n : ℤ} → read f ≡ ok n → f ≡ given n
read-eq-ok absent h = cc
read-eq-ok malformed h = cc
read-eq-ok (given m) h = ap given (ok-injective _ _ h)

scheduled-eq-ok :
    (o : Option String) {s : ℕ}
    → scheduled o ≡ ok s
    → (p : String) × (o ≡ some p) × (pattern_load_duration p ≡ some s)
unfolding scheduled
scheduled-eq-ok none h = cc
scheduled-eq-ok (some p) h = (p, refl, ground arith)

agrees-eq-ok :
    (f : Field) (n : ℕ) (e : Unavailable) {u : Unit {0}}
    → agrees f (pos n) e ≡ ok u
    → AgreesWith f n
unfolding agrees
agrees-eq-ok absent n e h = inl refl
agrees-eq-ok malformed n e h = cc
agrees-eq-ok (given (pos m)) n e h = inr (ground arith)
agrees-eq-ok (given (negsuc m)) n e h = ground arith

-- The numeric tests, for a runner that started at `s`.
module _ (s schedule : ℕ) where
  abbrev offered : ℤ
  offered = pos s +ℤ pos schedule

  sums : (pos s +ℤ pos 30 ≡ pos (s + 30)) × (offered ≡ pos (s + schedule))
  unfolding ◌+ℤ◌
  sums = (ground arith, ground arith)

  late_runner :
      (stop : ℤ)
      → 211 ≤ schedule
      → ltb_ℤ stop (pos (s + schedule) -ℤ pos 2) ≡ false
      → (n : ℕ) × (stop ≡ pos n) × (s + schedule ≤ n + 2)
  unfolding ◌-ℤ◌
  late_runner (pos n) l h = (n, refl, ground arith)
  late_runner (negsuc n) l h = ground arith

  right_boundary :
      (tail end : ℤ)
      → (not (eq_ℤ tail (pos 360)) || not (eq_ℤ end (pos (s + schedule) +ℤ tail))) ≡ false
      → (tail ≡ pos 360) × (end ≡ pos (s + schedule + 360))
  unfolding ◌+ℤ◌
  right_boundary (pos t) (pos e) h = ground arith
  right_boundary (pos t) (negsuc e) h = ground arith
  right_boundary (negsuc t) end h = ground arith

positive :
    (z : ℤ) (t : Bool)
    → (leb_ℤ z (pos 0) || t) ≡ false
    → (n : ℕ) × (z ≡ pos n) × (0 < n) × (t ≡ false)
positive (pos n) t h = (n, refl, ground arith, ground arith)
positive (negsuc n) t h = ground arith

ended_by : (z : ℤ) (t : ℕ) → ltb_ℤ z (pos t) ≡ false → (n : ℕ) × (z ≡ pos n) × (t ≤ n)
ended_by (pos n) t h = (n, refl, ground arith)
ended_by (negsuc n) t h = ground arith

-- `pos` of what the tests found, in the form that an accepted window has.
given_pos : (f : Field) {z : ℤ} {n : ℕ} → read f ≡ ok z → z ≡ pos n → f ≡ given (pos n)
given_pos f e p = read-eq-ok f e ∙ ap given p

-- The window is accepted only if the receipts are complete and agree with the schedule.
module _ (r : Receipts) (w : Window) where
  window-Accepts : window r ≡ ok w → Accepts r w
  unfolding window
  window-Accepts h = do
    (start, e1, h1) ← returned (read r.runner_start) _ h
    (stop, e2, h2) ← returned (read r.runner_end) _ h1
    (schedule, e3, h3) ← returned (scheduled r.pattern) _ h2
    (tail, e4, h4) ← returned (read r.post_load_tail_seconds) _ h3
    (end, e5, h5) ← returned (read r.observation_end_time) _ h4
    (t1, h6) ←
        not_raised (leb_ℤ start (pos 0) || ltb_ℤ stop (start +ℤ pos schedule -ℤ pos 2))
          schedule_not_covered _ h5
    (t2, h7) ←
        not_raised (not (eq_ℤ tail (pos 360)) || not (eq_ℤ end (start +ℤ pos schedule +ℤ tail)))
          boundary_mismatch _ h6
    (ended, e8, h8) ← returned (read r.end_time) _ h7
    (t3, h9) ← not_raised (ltb_ℤ ended end) ended_early _ h8
    (u1, e10, h10) ← returned (agrees r.load_start_time (start +ℤ pos 30) onset_disagrees) _ h9
    (u2, e11, h11) ←
        returned (agrees r.offered_load_end_time (start +ℤ pos schedule) load_end_disagrees) _ h10
    let (p, e3', e3'') = scheduled-eq-ok _ e3 in
        let (s, ps, s_pos, t1') = positive start _ t1 in
        let (on, off) = sums s schedule in
        let (m, pm, cover) =
          late_runner s schedule stop (pattern_load_duration-le p e3'') (rw (ps, off) at t1') in
        let (pt, pe) = right_boundary s schedule tail end (rw (ps, off) at t2) in
        let (n, pn, done) = ended_by ended (s + schedule + 360) (rw pe at t3) in
        subst (Accepts r) (ok-injective _ _ h11) (
          rw (ps, pm, pe, on, off)
            (record {
              pattern = p;
              schedule = schedule;
              ended = n;
              pattern_given = e3';
              pattern_known = e3'';
              fits = omega arith;
              start_given = given_pos _ e1 ps;
              stop_given = given_pos _ e2 pm;
              tail_given = given_pos _ e4 pt;
              end_given = given_pos _ e5 pe;
              ended_given = given_pos _ e8 pn;
              collected = done;
              load_start = agrees-eq-ok _ _ _ (rw (ps, on) at e10);
              load_end = agrees-eq-ok _ _ _ (rw (ps, off) at e11);
            }))

agrees-AgreesWith :
    (f : Field) (n : ℕ) (e : Unavailable) → AgreesWith f n → agrees f (pos n) e ≡ ok tt
unfolding agrees
agrees-AgreesWith f n e (inl p) = rw p
agrees-AgreesWith f n e (inr p) = rw p (ground arith)

scheduled-known :
    (p : String) {s : ℕ} → pattern_load_duration p ≡ some s → scheduled (some p) ≡ ok s
unfolding scheduled
scheduled-known p h = rw (h, scheduled)

module _ (s m schedule : ℕ) where
  passes_start :
      0 < s
      → s + schedule ≤ m + 2
      → (leb_ℤ (pos s) (pos 0) || ltb_ℤ (pos m) (pos (s + schedule) -ℤ pos 2)) ≡ false
  unfolding ◌-ℤ◌
  passes_start h k = ground arith

  passes_boundary :
      (not (eq_ℤ (pos 360) (pos 360))
        || not (eq_ℤ (pos (s + schedule + 360)) (pos (s + schedule) +ℤ pos 360)))
      ≡ false
  unfolding ◌+ℤ◌
  passes_boundary = ground arith

module _ (r : Receipts) (w : Window) where
  -- Receipts that are complete and agree with the schedule are always accepted.
  Accepts-window : Accepts r w → window r ≡ ok w
  unfolding window
  Accepts-window a =
      let s = w.runner_start in
      let (on, off) = sums s a.schedule in
      let e : w.tail_end ≡ s + a.schedule + 360 = omega arith in
      let late : ltb_ℤ (pos a.ended) (pos (s + a.schedule + 360)) ≡ false = ground arith in
      let first = rw a.fits.onset at a.load_start in
      let second = rw a.fits.offered_end at a.load_end in
      rw
        (
          a.start_given,
          a.stop_given,
          a.pattern_given,
          scheduled-known a.pattern a.pattern_known,
          a.tail_given,
          rw e at a.end_given,
          a.ended_given,
          on,
          off,
          passes_start s w.runner_end a.schedule a.fits.started (omega arith),
          passes_boundary s w.runner_end a.schedule,
          late,
          agrees-AgreesWith r.load_start_time (s + 30) onset_disagrees first,
          agrees-AgreesWith r.offered_load_end_time (s + a.schedule) load_end_disagrees second,
        )
        (ground arith)

-- The receipts give the window `w` exactly when they are complete and readable, name a known pattern,
-- agree with its schedule and the 360 s tail where they record it, and reach the end of the window:
-- the load then starts 30 s after the runner, and the tail ends 360 s after the offered load.
pub window-iff_Accepts : (r : Receipts) (w : Window) → (window r ≡ ok w) ↔ Accepts r w
window-iff_Accepts r w = (window-Accepts r w, Accepts-window r w)

-- ===== src/LiveBaseline/Occupancy/Known.antt =====
-- hack/analyze/live_baseline.py, integrate: the sums are those over the parts of the window between
-- neighbouring readings with known values.
use predictive_hpa.Prelude.{
  ℕ, Bool, true, false, ◌≡◌, refl, sym, ap, ◌∙◌, Option, some, none, List, [], ◌∷◌, ◌++◌,
  if◌then◌else◌, All, All-append, Bool-cases, inl, inr,
}
use predictive_hpa.Prelude.Int.{pos}
use mathlib.Core.Path.{subst}
use mathlib.Core.List.{append-nil, append_assoc}
use predictive_hpa.Float
use predictive_hpa.Float.{Float, of_ℤ}
use predictive_hpa.Latency.Values.{Arithmetic, le}
use predictive_hpa.LiveBaseline.Samples.{Reading}
use predictive_hpa.LiveBaseline.Occupancy.{
  Interval, max_float, between, is_empty, Sums, Coverage, too_far, add_interval, add_if_known,
  add_pair, add_pairs, unknown, no_sums, integrate, micro,
}

-- The known parts that follow one another from a time on, with the unknown parts between them and
-- after the last, which are told from the onset.
pub data Tiles (minus : Float → Float → Float) (onset end : Float)
    : Float → List Interval → List Interval → Type 0 where
  -- Nothing is left.
  done : {t : Float} → Float.lt t end ≡ false → Tiles minus onset end t [] []
  -- What is left is unknown.
  left :
      {t : Float}
      → Float.lt t end ≡ true
      → Tiles minus onset end t [] (record { begin = minus t onset; finish = minus end onset } ∷ [])
  -- A known part that leaves no gap, and one that leaves a gap.
  joined :
      {t : Float} {i : Interval} {is us : List Interval}
      → Float.lt t i.begin ≡ false
      → Tiles minus onset end i.finish is us
      → Tiles minus onset end t (i ∷ is) us
  after_gap :
      {t : Float} {i : Interval} {is us : List Interval}
      → Float.lt t i.begin ≡ true
      → Tiles minus onset end i.finish is us
      → Tiles minus onset end t
          (i ∷ is)
          (record { begin = minus t onset; finish = minus i.begin onset } ∷ us)

-- A part of the window with the value that is held there.
abbrev pub Held : Type 0
Held = Interval × ℕ

abbrev pub intervals_of : List Held → List Interval
intervals_of [] = []
intervals_of (h ∷ hs) = h.0 ∷ intervals_of hs

-- A sum of floats, from the left.
abbrev pub sum_from : (Float → Float → Float) → (Held → Float) → Float → List Held → Float
sum_from plus f acc [] = acc
sum_from plus f acc (h ∷ hs) = sum_from plus f (plus acc (f h)) hs

abbrev pub held_if : Bool → Option ℕ → Option ℕ → Interval → List Held
held_if false (some n) (some m) i = (i, n) ∷ []
held_if _ _ _ i = []

held_if-All :
    (b : Bool) (v w : Option ℕ) (i : Interval)
    → is_empty i ≡ false
    → All (λ (h : Held). is_empty h.0 ≡ false) (held_if b v w i)
held_if-All false (some n) (some m) i e = (e, tt)
held_if-All false (some n) none i e = tt
held_if-All false none w i e = tt
held_if-All true v w i e = tt

unknown-Tiles :
    (a : Arithmetic) (onset end cursor : Float) (is : List Interval)
    → Tiles a.minus onset end cursor is (unknown a onset end cursor is)
unfolding unknown
unknown-Tiles a onset end cursor [] = elim (Bool-cases (Float.lt cursor end)) [
  | inl e ↦ rw e (left e)
  | inr e ↦ rw e (done e)
]
unknown-Tiles a onset end cursor (i ∷ is) =
    let rest = unknown-Tiles a onset end i.finish is in
    elim (Bool-cases (Float.lt cursor i.begin)) [
      | inl e ↦ rw e (after_gap e rest)
      | inr e ↦ rw e (joined e rest)
    ]

module _ (a : Arithmetic) (onset end max_gap : Float) where
  -- The finishes of the readings are further apart than the gap.
  abbrev pub apart : Reading → Reading → Bool
  apart l r = Float.lt max_gap (a.minus r.finish l.finish)

  -- From the later of the onset and the finish of the one to the earlier of the end and the finish of
  -- the other.
  abbrev pub part : Reading → Reading → Interval
  part l r = record {
    begin = if Float.lt onset l.finish then l.finish else onset;
    finish = if Float.lt r.finish end then r.finish else end;
  }

  abbrev pub pair_held : Reading → Reading → List Held
  pair_held l r =
      if le (part l r).finish (part l r).begin
      then []
      else held_if (apart l r) l.value r.value (part l r)

  -- The known parts of the window: those between neighbours that both have a value and are not too
  -- far from each other.
  abbrev pub known : List Reading → List Held
  known [] = []
  known (r ∷ []) = []
  known (l ∷ r ∷ rs) = pair_held l r ++ known (r ∷ rs)

  abbrev pub length_of : Held → Float
  length_of h = a.minus h.0.finish h.0.begin

  abbrev pub weighted : Held → Float
  weighted h = a.times (of_ℤ (pos h.1)) (length_of h)

  abbrev pub late : Float → Held → Float
  late offered_end h =
      a.times (of_ℤ (pos h.1))
        (max_float (of_ℤ (pos 0)) (a.minus h.0.finish (max_float h.0.begin offered_end)))

  nonempty : (values : List Reading) → All (λ (h : Held). is_empty h.0 ≡ false) (known values)
  nonempty [] = tt
  nonempty (r ∷ []) = tt
  nonempty (l ∷ r ∷ rs) =
      All-append (λ (h : Held). is_empty h.0 ≡ false) (pair_held l r) (known (r ∷ rs))
        (elim (Bool-cases (is_empty (between onset end l r))) [
          | inl e ↦ rw e tt
          | inr e ↦ rw e (held_if-All (too_far a onset end max_gap l r) l.value r.value _ e)
        ])
        (nonempty (r ∷ rs))

  module _ (offered_end : Float) where
    abbrev add_held : Held → Sums → Sums
    add_held h s = add_interval a onset end offered_end h.1 h.0 s

    abbrev add_all : List Held → Sums → Sums
    add_all [] s = s
    add_all (h ∷ hs) s = add_all hs (add_held h s)

    add_all-append :
        (hs ks : List Held) (s : Sums) → add_all (hs ++ ks) s ≡ add_all ks (add_all hs s)
    add_all-append [] ks s = refl
    add_all-append (h ∷ hs) ks s = add_all-append hs ks (add_held h s)

    add_if_known-held_if :
        (b : Bool) (v w : Option ℕ) (i : Interval) (s : Sums)
        → add_if_known a onset end offered_end b v w i s ≡ add_all (held_if b v w i) s
    add_if_known-held_if false (some n) (some m) i s = refl
    add_if_known-held_if false (some n) none i s = refl
    add_if_known-held_if false none w i s = refl
    add_if_known-held_if true v w i s = refl

    add_pair-pair_held :
        (l r : Reading) (s : Sums)
        → add_pair a onset end offered_end max_gap l r s ≡ add_all (pair_held l r) s
    add_pair-pair_held l r s = elim (Bool-cases (is_empty (between onset end l r))) [
      | inl e ↦ rw e refl
      | inr e ↦ rw e (add_if_known-held_if (too_far a onset end max_gap l r) l.value r.value _ s)
    ]

    add_pairs-known :
        (values : List Reading) (s : Sums)
        → add_pairs a onset end offered_end max_gap values s ≡ add_all (known values) s
    unfolding add_pairs
    add_pairs-known [] s = refl
    add_pairs-known (r ∷ []) s = refl
    add_pairs-known (l ∷ r ∷ rs) s =
        add_pairs-known (r ∷ rs) (add_pair a onset end offered_end max_gap l r s)
        ∙ (ap (add_all (known (r ∷ rs))) (add_pair-pair_held l r s)
            ∙ sym (add_all-append (pair_held l r) (known (r ∷ rs)) s))

    -- The sums after some parts, from those before them.
    record Extends (hs : List Held) (s t : Sums) : Type 0 where
      total : t.total ≡ sum_from a.plus weighted s.total hs
      post : t.post ≡ sum_from a.plus (late offered_end) s.post hs
      covered : t.covered ≡ sum_from a.plus length_of s.covered hs
      intervals : t.intervals ≡ s.intervals ++ intervals_of hs

    add_all-Extends : (hs : List Held) (s : Sums) → Extends hs s (add_all hs s)
    add_all-Extends [] s = record {
      total = refl;
      post = refl;
      covered = refl;
      intervals = sym (append-nil s.intervals);
    }
    add_all-Extends (h ∷ hs) s =
        let rest = add_all-Extends hs (add_held h s) in
        record {
          total = rest.total;
          post = rest.post;
          covered = rest.covered;
          intervals = rest.intervals ∙ append_assoc s.intervals (h.0 ∷ []) (intervals_of hs);
        }

    -- What `integrate` reports, from the known parts of the window.
    pub record IsSumOf (values : List Reading) (c : Coverage) : Type 0 where
      pub apart : All (λ (h : Held). is_empty h.0 ≡ false) (known values)
      pub pods : c.covered_pod_seconds ≡ sum_from a.plus weighted (of_ℤ (pos 0)) (known values)
      pub covered : c.covered_seconds ≡ sum_from a.plus length_of (of_ℤ (pos 0)) (known values)
      pub gaps : Tiles a.minus onset end onset (intervals_of (known values)) c.unknown_intervals
      pub lacking : c.unknown_seconds ≡ a.minus (a.minus end onset) c.covered_seconds
      pub whole :
          c.complete ≡ Float.lt (a.absolute (a.minus c.covered_seconds (a.minus end onset))) micro
      pub reported : c.pod_seconds ≡ (if c.complete then some c.covered_pod_seconds else none)
      pub reported_late : c.post_load_pod_seconds ≡ (
          if c.complete
          then some (sum_from a.plus (late offered_end) (of_ℤ (pos 0)) (known values))
          else none)

    -- The seconds that integrate reports are the sums over the parts of the window that lie between
    -- two neighbouring readings with values, no further apart than the gap, each weighted with the
    -- value of the first; the unknown intervals are those from the onset to the first part, between the
    -- parts and from the last to the end, where they are not empty; and the totals are reported only
    -- where the parts cover the window up to a microsecond.
    pub integrate-IsSumOf :
        (values : List Reading) → IsSumOf values (integrate a onset end offered_end max_gap values)
    unfolding integrate
    integrate-IsSumOf values =
        let sums = add_all-Extends (known values) no_sums in
        let same = add_pairs-known values no_sums in
        rw same (record {
          apart = nonempty values;
          pods = sums.total;
          covered = sums.covered;
          gaps =
              subst
                (λ is.
                  Tiles a.minus onset end onset is
                    (unknown a onset end onset (add_all (known values) no_sums).intervals))
                sums.intervals
                (unknown-Tiles a onset end onset (add_all (known values) no_sums).intervals);
          lacking = refl;
          whole = refl;
          reported = refl;
          reported_late =
              ap
                (λ x.
                  if Float.lt
                    (a.absolute
                      (a.minus (add_all (known values) no_sums).covered (a.minus end onset)))
                    micro
                  then some x
                  else none)
                sums.post;
        })

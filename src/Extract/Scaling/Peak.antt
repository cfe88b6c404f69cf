-- ===== src/Extract/Scaling/Peak.antt =====
-- When `compute_scaling_metrics` (hack/analyze/extract.py) raises, and what its peak
-- says of the series.
use mathlib.Core.Path.{subst}
use mathlib.Core.Option
use mathlib.Core.Option.{some-injective}
use mathlib.Core.List.{head?}
use predictive_hpa.Prelude.{
  ℕ, ◌≡◌, ◌↔◌, ◌⊎◌, inl, inr, refl, ap, sym, ◌∙◌, true, Option, some, List, [], ◌∷◌, keep_if,
  last_or, ok, on_ok, bind_ok, ok-injective, All, arith, Bool-cases,
}
use predictive_hpa.Prelude.Int.{ℤ, ltb_ℤ, eq_ℤ, ◌≤ℤ◌, eq_of_parts}
use predictive_hpa.Float
use predictive_hpa.Float.{IntError, Float, nan, inf, neg_inf, finite, of_ℤ}
use predictive_hpa.Extract.Measurement.{Point}
use predictive_hpa.Extract.Scaling.{
  ScaleEvent, Scaling, scaling, scale_events, scaling_of, highest, max_ℤ, is_scaleup, up_of,
  steady_state_of,
}

abbrev pub IsFinite : Point → Type 0
IsFinite p = Float.isfinite p.value ≡ true

int-finite : (v : Float) → Float.isfinite v ≡ true → (n : ℤ) × (Float.int v ≡ ok n)
int-finite nan h = cc
int-finite inf h = cc
int-finite neg_inf h = cc
int-finite (finite n k) h = (_, refl)

finite-int : (v : Float) {n : ℤ} → Float.int v ≡ ok n → Float.isfinite v ≡ true
finite-int nan h = cc
finite-int inf h = cc
finite-int neg_inf h = cc
finite-int (finite m k) h = refl

module _ (start : ℕ) where
  scale_events-finite :
      (v : ℤ) (ps : List Point)
      → All IsFinite ps
      → (es : List ScaleEvent) × (scale_events start v ps ≡ ok es)
  unfolding scale_events
  scale_events-finite v [] h = ([], refl)
  scale_events-finite v (p ∷ ps) h =
      let (n, e) = int-finite p.value h.0 in
      let (es, e') = scale_events-finite n ps h.1 in (_, bind_ok _ e (bind_ok _ e' refl))

  IsFinite-scale_events :
      (v : ℤ) (ps : List Point) {es : List ScaleEvent}
      → scale_events start v ps ≡ ok es
      → All IsFinite ps
  unfolding scale_events
  IsFinite-scale_events v [] h = tt
  IsFinite-scale_events v (p ∷ ps) h = on_ok (Float.int p.value) _ h λ n e h1.
      on_ok (scale_events start n ps) _ h1
        λ es e' h2. (finite-int p.value e, IsFinite-scale_events n ps e')

last-IsFinite :
    (p : Point) (ps : List Point) → IsFinite p → All IsFinite ps → IsFinite (last_or p ps)
last-IsFinite p [] h a = h
last-IsFinite p (q ∷ qs) h a = last-IsFinite q qs a.0 a.1

-- The metrics are computed exactly when every value of the series is finite; `int` raises on the
-- first one that is not.
scaling-iff_IsFinite :
    (start stop : ℕ) (ps : List Point)
    → ((s : Scaling) × (scaling start stop ps ≡ ok s)) ↔ All IsFinite ps
unfolding scaling
scaling-iff_IsFinite start stop [] = (λ _. tt, λ _. (_, refl))
scaling-iff_IsFinite start stop (p ∷ ps) = (
  λ (s, h). on_ok (Float.int p.value) _ h λ n e h1.
      on_ok (scale_events start n ps) _ h1
        λ es e' h2. (finite-int p.value e, IsFinite-scale_events start n ps e'),
  λ (h, a).
      let (n, e) = int-finite p.value h in
      let (es, e') = scale_events-finite start n ps a in
      let (l, e'') = int-finite (last_or p ps).value (last-IsFinite p ps h a) in
      (_, bind_ok _ e (bind_ok _ e' (bind_ok _ e'' refl))),
)

-- Orders on integers through their parts.
≤ℤ-refl : (a : ℤ) → a ≤ℤ a
≤ℤ-refl a = omega arith

eq_ℤ→eq : (a b : ℤ) → eq_ℤ a b ≡ true → a ≡ b
eq_ℤ→eq a b h = eq_of_parts a b (ground arith)

≤ℤ-max_ℤ : (a b : ℤ) → (a ≤ℤ max_ℤ a b) × (b ≤ℤ max_ℤ a b)
unfolding max_ℤ
≤ℤ-max_ℤ a b = ground arith

max_ℤ-cases : (a b : ℤ) → (max_ℤ a b ≡ a) ⊎ (max_ℤ a b ≡ b)
unfolding max_ℤ
max_ℤ-cases a b = elim (Bool-cases (ltb_ℤ a b)) [ inl h ↦ inr (rw h) | inr h ↦ inl (rw h) ]

≤ℤ-highest :
    (m : ℤ) (es : List ScaleEvent) → (m ≤ℤ highest m es) × All (λ e. e.new ≤ℤ highest m es) es
unfolding highest
≤ℤ-highest m [] = (≤ℤ-refl m, tt)
≤ℤ-highest m (e ∷ es) =
    let (h, a) = ≤ℤ-highest (max_ℤ m e.new) es in
    let (l, r) = ≤ℤ-max_ℤ m e.new in (omega arith, (omega arith, a))

-- The first event that reaches `n`.
abbrev pub reaching : ℤ → List ScaleEvent → Option ScaleEvent
reaching n es = head? (keep_if (λ e. eq_ℤ e.new n) es)

highest-reached :
    (m : ℤ) (es : List ScaleEvent)
    → (highest m es ≡ m) ⊎ ((e : ScaleEvent) × (reaching (highest m es) es ≡ some e))
unfolding highest
highest-reached m [] = inl refl
highest-reached m (e ∷ es) =
    let peak = highest (max_ℤ m e.new) es in
    elim (Bool-cases (eq_ℤ e.new peak)) [
      | inl here ↦ inr (e, rw here)
      | inr other ↦ elim (highest-reached (max_ℤ m e.new) es) [
        | inl q ↦ elim (max_ℤ-cases m e.new) [
          | inl old ↦ inl (q ∙ old)
          | inr new ↦
              let same : e.new ≡ peak = sym (q ∙ new) in
              let now : eq_ℤ e.new peak ≡ true = rw (← same) (ground arith) in cc
        ]
        | inr (x, q) ↦ inr (x, rw other q)
      ]
    ]

-- Every value is the first one, or at most `m`.
abbrev pub AtMost : ℤ → ℤ → List Point → Type 0
AtMost initial m = All (λ p. (n : ℤ) × (Float.int p.value ≡ ok n) × ((n ≡ initial) ⊎ (n ≤ℤ m)))

module _ (start : ℕ) (initial m : ℤ) where
  scale_events-AtMost :
      (v : ℤ) (ps : List Point) (es : List ScaleEvent)
      → (v ≡ initial) ⊎ (v ≤ℤ m)
      → scale_events start v ps ≡ ok es
      → All (λ e. e.new ≤ℤ m) es
      → AtMost initial m ps
  unfolding scale_events
  scale_events-AtMost v [] es h e a = tt
  scale_events-AtMost v (p ∷ ps) es h e a = on_ok (Float.int p.value) _ e λ n e1 h1.
      on_ok (scale_events start n ps) _ h1 λ rest e2 h2. elim (Bool-cases (eq_ℤ n v)) [
        | inl same ↦
            let kept : (n ≡ initial) ⊎ (n ≤ℤ m) =
              subst (λ (x : ℤ). (x ≡ initial) ⊎ (x ≤ℤ m)) (sym (eq_ℤ→eq n v same)) h in
            let e3 : rest ≡ es = ok-injective {E = IntError} _ _ (rw same at h2) in
            (
              (n, e1, kept),
              scale_events-AtMost n ps rest kept e2
                  (subst (All (λ (e : ScaleEvent). e.new ≤ℤ m)) (sym e3) a),
            )
        | inr differ ↦
            let e3 = ok-injective {E = IntError} _ _ (rw differ at h2) in
            let a' = subst (All (λ (e : ScaleEvent). e.new ≤ℤ m)) (sym e3) a in
            ((n, e1, inr a'.0), scale_events-AtMost n ps rest (inr a'.0) e2 a'.1)
      ]

reaching-cons :
    (n : ℤ) (e : ScaleEvent) (es : List ScaleEvent)
    → (e.new ≡ n) ⊎ ((x : ScaleEvent) × (reaching n es ≡ some x))
    → (x : ScaleEvent) × (reaching n (e ∷ es) ≡ some x)
reaching-cons n e es h = elim (Bool-cases (eq_ℤ e.new n)) [
  | inl here ↦ (e, rw here)
  | inr other ↦ elim h [
    | inl same ↦ let now : eq_ℤ e.new n ≡ true = rw same (ground arith) in cc
    | inr (x, q) ↦ (x, rw other q)
  ]
]

flip_reached :
    (n : ℤ) (e : ScaleEvent) (es : List ScaleEvent)
    → (n ≡ e.new) ⊎ ((x : ScaleEvent) × (reaching n es ≡ some x))
    → (e.new ≡ n) ⊎ ((x : ScaleEvent) × (reaching n es ≡ some x))
flip_reached n e es (inl h) = inl (sym h)
flip_reached n e es (inr h) = inr h

abbrev IsPeak : List ScaleEvent → ℤ → Type 0
IsPeak es m = All (λ e. e.new ≤ℤ m) es × ((e : ScaleEvent) × (reaching m es ≡ some e))

steady_state_of-IsPeak : (es : List ScaleEvent) {m : ℤ} → steady_state_of es ≡ some m → IsPeak es m
unfolding steady_state_of
steady_state_of-IsPeak [] h = cc
steady_state_of-IsPeak (e ∷ es) h =
    let peak = highest e.new es in
    subst (IsPeak (e ∷ es)) (some-injective _ _ h) (
      ≤ℤ-highest e.new es,
      reaching-cons peak e es (flip_reached peak e es (highest-reached e.new es)),
    )

up_of-steady :
    (es us : List ScaleEvent) {m : ℤ}
    → (up_of es us).steady ≡ some m
    → (steady_state_of es ≡ some m)
      × ((up_of es us).convergence ≡ Option.map (λ e. e.rel) (reaching m es))
unfolding up_of Option.bind
up_of-steady es [] h = cc
up_of-steady es (u ∷ us) h = (h, rw h)

-- When a series has a steady state: the samples that are above it all have the value of the first
-- sample, some event reaches it, and the convergence time is that of the first event that does.
pub scaling-steady_state :
    (start stop : ℕ) (p : Point) (ps : List Point) (s : Scaling) (m : ℤ)
    → scaling start stop (p ∷ ps) ≡ ok s
    → s.steady_state ≡ some m
    → ((initial : ℤ) × (Float.int p.value ≡ ok initial) × AtMost initial m ps)
      × ((e : ScaleEvent) × (reaching m s.events ≡ some e) × (s.convergence ≡ some e.rel))
unfolding scaling scaling_of
scaling-steady_state start stop p ps s m h steady = on_ok (Float.int p.value) _ h λ initial e1 h1.
    on_ok (scale_events start initial ps) _ h1 λ es e2 h2.
      on_ok (Float.int (last_or p ps).value) _ h2 λ last e3 h3.
        let whole = ok-injective {E = IntError} _ _ h3 in
        let steady' : (scaling_of start stop last es).steady_state ≡ some m =
          ap (λ (s : Scaling). s.steady_state) whole ∙ steady in
        let (known, conv) = up_of-steady es (keep_if is_scaleup es) steady' in
        let (bound, (e, first)) = steady_state_of-IsPeak es known in
        (
          (initial, e1, scale_events-AtMost start initial m initial ps es (inl refl) e2 bound),
          subst
              (λ (s : Scaling).
                (e : ScaleEvent) × (reaching m s.events ≡ some e) × (s.convergence ≡ some e.rel))
              whole (e, first, conv ∙ rw first),
        )

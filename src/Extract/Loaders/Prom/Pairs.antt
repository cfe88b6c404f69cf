-- ===== src/Extract/Loaders/Prom/Pairs.antt =====
-- hack/analyze/extract.py, load_prom: what Prometheus answers for the queries is loaded sample by
-- sample.
use predictive_hpa.Prelude.{String, ◌≡◌, refl, some, List, [], ◌∷◌, map, ok, All}
use predictive_hpa.Prelude.Int.{ℤ}
use predictive_hpa.Float.{Float}
use predictive_hpa.Json.{
  parsed, Json, int, str, arr, obj, Items, nil, cons, fields, elements, get_or, truthy,
}
use predictive_hpa.Extract.Loaders.Values.{Parsers, int_of, float_of}
use predictive_hpa.Extract.Loaders.Prom.{
  Sample, convert, samples_of, first_series, query_series, read_series, load_prom,
}

-- The pairs of a range query: a time, and a value as a text.
abbrev pub encode : List (ℤ × String) → Items
encode [] = nil
encode ((t, v) ∷ pairs) = cons (arr (cons (int t) (cons (str v) nil))) (encode pairs)

-- The answer to a query of one series.
abbrev pub answer : List (ℤ × String) → Json
answer pairs = obj (
    fields (
      (
        "data",
        obj (
            fields (
              ("result", arr (cons (obj (fields (("values", arr (encode pairs)) ∷ []))) nil))
              ∷ [])),
      )
      ∷ []))

abbrev pub document : List (ℤ × String) → List (ℤ × String) → List (ℤ × String) → Json
document replicas cpu rate = obj (
    fields (
      ("replicas", answer replicas) ∷ ("cpu_pct", answer cpu) ∷ ("rps_pkt_rate", answer rate) ∷ []))

module _ (p : Parsers) (value : String → Float) where
  abbrev pub sample_of : ℤ × String → Sample
  sample_of (t, v) = record { time = t; value = value v }

  -- The values are texts of floats.
  abbrev pub IsNumeric : ℤ × String → Type 0
  IsNumeric pair = p.float_of_text pair.1 ≡ some (value pair.1)

  samples_of-encode :
      (pairs : List (ℤ × String))
      → All IsNumeric pairs
      → samples_of p (elements (encode pairs)) ≡ ok (map sample_of pairs)
  unfolding samples_of convert int_of float_of
  samples_of-encode [] h = refl
  samples_of-encode ((t, v) ∷ pairs) h = rw (h.0, samples_of-encode pairs h.1) refl

  first_series-encode :
      (pairs : List (ℤ × String))
      → All IsNumeric pairs
      → first_series p (arr (cons (obj (fields (("values", arr (encode pairs)) ∷ []))) nil))
        ≡ ok (map sample_of pairs)
  unfolding first_series get_or
  first_series-encode pairs h = samples_of-encode pairs h

  -- From the answers to the three queries, one series each with texts of floats as its values, every
  -- pair becomes a sample, in order and under the name of its query.
  pub load_prom-document :
      (replicas cpu rate : List (ℤ × String))
      → All IsNumeric replicas
      → All IsNumeric cpu
      → All IsNumeric rate
      → load_prom p (parsed (document replicas cpu rate))
        ≡ ok (
          ("replicas", map sample_of replicas)
              ∷ ("cpu_pct", map sample_of cpu)
              ∷ ("rps_pkt_rate", map sample_of rate)
              ∷ [],
          [],
        )
  unfolding load_prom read_series query_series get_or truthy
  load_prom-document replicas cpu rate r c k =
      rw (first_series-encode replicas r, first_series-encode cpu c, first_series-encode rate k)
        refl

-- ===== src/Extract/Loaders/Prom/Tests.antt =====
-- The answers to the three queries, and a series with a pair that is passed over.
use predictive_hpa.Prelude.{String, ◌≡◌, refl, some, none, [], ◌∷◌, ok, map, if◌then◌else◌}
use predictive_hpa.Prelude.Int.{pos}
use predictive_hpa.Float.{Float, nan, of_ℤ}
use predictive_hpa.Json.{parsed, null, int, str, arr, cons, nil}
use predictive_hpa.Extract.Loaders.Values.{Parsers, int_of, float_of}
use predictive_hpa.Extract.Loaders.Prom.{convert, samples_of, load_prom}
use predictive_hpa.Extract.Loaders.Prom.Pairs.{document, sample_of, load_prom-document}
use text.Mathlib.Text.{◌==◌ as str_eq}

abbrev value : String → Float
value s = if str_eq s "2" then of_ℤ (pos 2) else nan

abbrev parsers : Parsers
parsers = record {
  int_of_text = λ s. none;
  float_of_text = λ s. some (value s);
  from_iso_format = λ s. none;
}

-- A pair whose value is None, and one that is no pair.
skipped :
    samples_of parsers (
      arr (cons (int (pos 5)) (cons null nil))
      ∷ arr nil
      ∷ arr (cons (int (pos 7)) (cons (str "2") nil))
      ∷ [])
    ≡ ok (record { time = pos 7; value = of_ℤ (pos 2) } ∷ [])
unfolding samples_of convert int_of float_of
skipped = refl

load_prom-document_example :
    load_prom parsers
      (parsed (document ((pos 10, "2") ∷ (pos 25, "2") ∷ []) ((pos 10, "x") ∷ []) []))
    ≡ ok (
      ("replicas", map (sample_of parsers value) ((pos 10, "2") ∷ (pos 25, "2") ∷ []))
          ∷ ("cpu_pct", map (sample_of parsers value) ((pos 10, "x") ∷ []))
          ∷ ("rps_pkt_rate", [])
          ∷ [],
      [],
    )
load_prom-document_example =
    load_prom-document parsers value ((pos 10, "2") ∷ (pos 25, "2") ∷ []) ((pos 10, "x") ∷ []) []
      (refl, (refl, tt)) (refl, tt) tt

-- ===== src/Privacy/Adapter.antt =====
-- privacy/model_adapter.go: modelDetectorAdapter, which makes a Detector of a model client. Its
-- timeouts are part of what the client answers.
pub mod Balanced
use ao_eo.Base.{String, List, [], ◌∷◌}
use ao_eo.Privacy.Balancer.{Answer, answered, failed}
use ao_eo.Privacy.Balancer
use ao_eo.Privacy.Pseudonymizer.{Span}

-- The interface model.Client, as far as the adapter uses it
pub record Client (W : Type 0) : Type 0 where
  pub detect : String → W → Answer (List Balancer.Span) × W
  pub detect_batch : List String → W → Answer (List (List Balancer.Span)) × W

unfoldable pub converted : List Balancer.Span → List Span
converted [] = []
converted (s ∷ ss) =
    record { start = s.start; end = s.end; label = s.label; original = s.text } ∷ converted ss

unfoldable pub converted_all : List (List Balancer.Span) → List (List Span)
unfolding converted
converted_all [] = []
converted_all (ss ∷ sss) = converted ss ∷ converted_all sss

-- An error becomes an empty result.
unfoldable pub spans_or_none : Answer (List Balancer.Span) → List Span
unfolding converted
spans_or_none (answered ss) = converted ss
spans_or_none (failed e) = []

module _ {W : Type 0} (c : Client W) where
  -- Detect
  unfoldable pub detect : String → W → List Span × W
  unfolding spans_or_none
  detect text w = (spans_or_none (c.detect text w).0, (c.detect text w).1)

  unfoldable pub detect_each : List String → W → List (List Span) × W
  unfolding detect
  detect_each [] w = ([], w)
  detect_each (t ∷ ts) w =
      let found = detect t w in let rest = detect_each ts found.1 in (found.0 ∷ rest.0, rest.1)

  abbrev pub batch_or_each :
      Answer (List (List Balancer.Span)) → List String → W → List (List Span) × W
  batch_or_each (answered sss) texts w = (converted_all sss, w)
  batch_or_each (failed e) texts w = detect_each texts w

  -- DetectBatch: one by one where the batch fails
  unfoldable pub detect_batch : List String → W → List (List Span) × W
  unfolding converted_all detect_each
  detect_batch [] w = ([], w)
  detect_batch (t ∷ ts) w =
      batch_or_each (c.detect_batch (t ∷ ts) w).0 (t ∷ ts) (c.detect_batch (t ∷ ts) w).1

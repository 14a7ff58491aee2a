-- ===== src/Engine/History/Tests.antt =====
-- internal/engine/history.go: histories of two records.
use ao_eo.Base.{ℕ, ◌≡◌, refl, String, List, [], ◌∷◌, take, none, panic, pos, str_eq}
use ao_eo.Engine.History.{
  CallRecord, Storage, History, zero_record, ring_size, new_history, set_storage, close, clear,
  in_memory, records, records_by_tag, records_by_provider, queried, keep_if, has_tag, record_call,
  stats,
}
use ao_eo.Engine.History.Log.{Op, add, wipe, run_ops, log_ops, queries_refine, record_call-closed}
use ao_eo.Engine.History.Aggregate.{Reported, lookup, of_provider, stats-Reported}

abbrev named : String → ℕ → CallRecord
named name ms = record zero_record { provider = name; latency_ms = ms; tags = name ∷ [] }

abbrev ops : List Op
ops =
    add (named "old" 9)
    ∷ wipe
    ∷ add (named "kimi" 1)
    ∷ add (named "glm" 2)
    ∷ add (named "kimi" 3)
    ∷ []

abbrev silent : Storage
silent = record {
  get_calls = λ n. none;
  get_calls_by_tag = λ tag n. none;
  get_calls_by_provider = λ name n. none;
  get_provider_stats = none;
}

abbrev two : History
two = run_ops ops (new_history (pos 2))

in_memory-two : in_memory two ≡ named "kimi" 3 ∷ named "glm" 2 ∷ []
unfolding in_memory record_call new_history clear
in_memory-two = refl

queries_refine_example :
    (records two ≡ queried two.storage (λ s. s.get_calls 2) (take 2 (log_ops ops [])))
    × (records_by_tag "kimi" two
        ≡ queried two.storage
            (λ s. s.get_calls_by_tag "kimi" 2)
            (keep_if (λ r. has_tag "kimi" r.tags) (take 2 (log_ops ops []))))
    × (records_by_provider "kimi" two
        ≡ queried two.storage
            (λ s. s.get_calls_by_provider "kimi" 2)
            (keep_if (λ r. str_eq r.provider "kimi") (take 2 (log_ops ops []))))
unfolding ring_size
queries_refine_example = queries_refine (pos 2) ops "kimi"

record_call-closed_example :
    ((record_call (named "late" 4) (close (set_storage silent two))).0
      ≡ panic "send on closed channel")
    × (in_memory (record_call (named "late" 4) (close (set_storage silent two))).1
        ≡ take (ring_size (pos 2)) (named "late" 4 ∷ log_ops ops []))
record_call-closed_example = record_call-closed (pos 2) ops silent (named "late" 4)

stats-Reported_example : Reported (lookup "kimi" (stats two)) (of_provider "kimi" (in_memory two))
unfolding new_history record_call clear
stats-Reported_example = stats-Reported two "kimi" refl

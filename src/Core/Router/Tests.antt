-- ===== src/Core/Router/Tests.antt =====
-- core/router.go: three candidates, of which the second is not available.
use ao_eo.Base.{
  ℕ, ◌%◌, ◌≡◌, String, Bool, true, false, List, [], ◌∷◌, ◌++◌, map, length, take, drop, ok, arith,
}
use ao_eo.Core.Router.{ProviderStatus, available_from, available_indices}
use ao_eo.Core.Router.Turns.{selects, round_robin_fair}

abbrev candidate : String → Bool → ℕ → ProviderStatus
candidate name available successes = record {
  name = name;
  available = available;
  model = "m";
  health = record {
    last_latency_ms = 0;
    avg_latency_ms = 0;
    successes = successes;
    checks = 10;
    consecutive_fails = 0;
  };
}

abbrev candidates : List ProviderStatus
candidates = candidate "kimi" true 4 ∷ candidate "glm" false 9 ∷ candidate "qwen" true 7 ∷ []

round_robin_fair_example :
    selects (length (available_indices candidates)) candidates 5
    ≡ map ok (
        drop (5 % length (available_indices candidates)) (available_indices candidates)
        ++ take (5 % length (available_indices candidates)) (available_indices candidates))
unfolding available_from
round_robin_fair_example = round_robin_fair candidates 5 (omega arith) (omega arith)

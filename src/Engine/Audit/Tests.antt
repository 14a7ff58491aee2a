-- ===== src/Engine/Audit/Tests.antt =====
-- internal/engine/audit.go: two providers that answer alike but for case.
use ao_eo.Base.{
  ℕ, ◌+◌, ◌≤◌, ◌≡◌, refl, String, true, false, [], ◌∷◌, length, get_elem?, Option, none, some,
  Outcome, ok, pos, arith,
}
use ao_eo.Core.Float32.{units}
use ao_eo.Core.Types.{Request, Response, content_of}
use ao_eo.Core.Interceptor.{values}
use ao_eo.Core.Router.{add_one}
use ao_eo.Engine.Scheduler.{Provider, Scheduler, State, recovered}
use ao_eo.Engine.Scheduler.Fallback.{available_providers}
use ao_eo.Engine.Stream.{no_message}
use ao_eo.Engine.Audit.{Words, AuditResult, audit, pick_other, merge_choices}
use ao_eo.Engine.Audit.Holding.{audit-held}
use ao_eo.Engine.Audit.Others.{Other, pick_other-finds}

abbrev request : Request
request = record {
  model = "";
  messages = [];
  temperature = units (pos 0);
  max_tokens = pos 0;
  top_p = units (pos 0);
  presence_penalty = units (pos 0);
  frequency_penalty = units (pos 0);
  stop = [];
  seed = none;
  response_format = "";
  stream = false;
  tags = [];
  tools = [];
  tool_choice = "";
  parallel_tool_calls = false;
  metadata = [];
}

abbrev saying : String → Response
saying s = record {
  id = "r";
  model = "m";
  choices =
      record {
        index = 0;
        message = record no_message { role = "assistant"; content = s };
        finish_reason = "stop";
      }
      ∷ [];
  usage = record { prompt_tokens = 1; completion_tokens = 2; total_tokens = 3 };
  created_at = 5;
}

abbrev provider : String → String → Provider ℕ
provider name answer = record {
  config = record {
    name = name;
    api_key = "k";
    endpoint = "e";
    model = "m";
    max_concurrent = pos 1;
    pricing = record { prompt_per_1k = pos 0; completion_per_1k = pos 0; currency = "" };
    max_failures = pos 3;
    cooldown_duration = pos 0;
  };
  is_available = λ w. true;
  health = λ w. record {
    last_latency_ms = 0;
    avg_latency_ms = 0;
    successes = 0;
    checks = 0;
    consecutive_fails = 0;
  };
  chat_complete = λ req w. (values (record { resp = some (saying answer); error = none }), w + 1);
}

abbrev scheduler : Scheduler ℕ
scheduler = record {
  closed = false;
  providers = provider "glm" "yes" ∷ provider "kimi" "no" ∷ [];
  provider_cfgs = [];
  retry = record {
    max_retries = pos 0;
    base_delay = pos 0;
    max_delay = pos 0;
    retryable = λ e. true;
  };
  retry_env = record { grow = λ k d. d; cancelled = λ k. false; expired = false };
  inject = λ name model req. req;
  chain = [];
  router = none;
  await_slot = λ w. (none, w);
  now_ms = λ w. w;
  record_id = λ name start id. name;
  error_text = λ e. "failed";
  cache_ttl_ms = 1000;
}

abbrev before : State ℕ
before = record { world = 0; held = 2; history = none; req_id = 0; avail_cache = none }

abbrev words : Words
words = record { trim_space = λ s. s; to_lower = λ s. s; fields = λ s. s ∷ [] }

audit-held_example : (audit words scheduler request 4 before).1.1.held ≡ 2
audit-held_example = audit-held words scheduler request 4 before

kimi_second : get_elem? (available_providers scheduler before).0 1 ≡ some (provider "kimi" "no")
unfolding available_providers
kimi_second = refl

two_available : length (available_providers scheduler before).0 ≤ 4
unfolding available_providers
two_available = omega arith

pick_other-finds_example :
    Other words scheduler "glm" (pick_other words scheduler "glm" 4 4 before).0
pick_other-finds_example =
    pick_other-finds words scheduler "glm" 4 4 before 1 (provider "kimi" "no") kimi_second (λ e. cc)
      two_available (omega arith)

abbrev adjusted_of : Outcome AuditResult → Option Response
adjusted_of (ok r) = r.adjusted
adjusted_of _ = none

-- The counter is even, so that the first candidate is the primary provider itself.
audited_both :
    adjusted_of (audit words scheduler request 4 before).0
    ≡ merge_choices (some (saying "yes")) (some (saying "no")) false
unfolding audit recovered add_one content_of
audited_both = refl

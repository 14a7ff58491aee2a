-- ===== src/Engine/Dual/Tests.antt =====
-- internal/engine/scheduler.go: a dual call of two providers.
use ao_eo.Base.{
  ℕ, ◌+◌, ◌*◌, ◌%◌, ◌^◌, ◌≡◌, refl, String, true, false, [], ◌∷◌, Option, none, some, ok, pos,
  Error,
}
use ao_eo.Core.Float32.{units}
use ao_eo.Core.Types.{Request, Response, content_of}
use ao_eo.Core.Router.{add_one}
use ao_eo.Core.Interceptor.{values, apply_before}
use ao_eo.Engine.Scheduler.{Provider, Scheduler, State, recovered, check_closed}
use ao_eo.Engine.Scheduler.Complete.{chat_complete}
use ao_eo.Engine.Stream.{no_message}
use ao_eo.Engine.Audit.{Words}
use ao_eo.Engine.Dual.{alone, chat_complete_dual}
use ao_eo.Engine.Scheduler.Fallback.{available_providers}
use ao_eo.Engine.Dual.Alone.{chat_complete_dual-alone}
use ao_eo.Engine.Dual.Holding.{chat_complete_dual-held}

abbrev request : Request
request = record {
  model = "";
  messages = [];
  temperature = units (pos 0);
  max_tokens = pos 0;
  top_p = units (pos 0);
  presence_penalty = units (pos 0);
  frequency_penalty = units (pos 0);
  stop = [];
  seed = none;
  response_format = "";
  stream = false;
  tags = [];
  tools = [];
  tool_choice = "";
  parallel_tool_calls = false;
  metadata = [];
}

abbrev saying : String → Response
saying s = record {
  id = "r";
  model = "m";
  choices =
      record {
        index = 0;
        message = record no_message { role = "assistant"; content = s };
        finish_reason = "stop";
      }
      ∷ [];
  usage = record { prompt_tokens = 1; completion_tokens = 2; total_tokens = 3 };
  created_at = 5;
}

abbrev provider : String → String → Provider ℕ
provider name answer = record {
  config = record {
    name = name;
    api_key = "k";
    endpoint = "e";
    model = "m";
    max_concurrent = pos 1;
    pricing = record { prompt_per_1k = pos 0; completion_per_1k = pos 0; currency = "" };
    max_failures = pos 3;
    cooldown_duration = pos 0;
  };
  is_available = λ w. true;
  health = λ w. record {
    last_latency_ms = 0;
    avg_latency_ms = 0;
    successes = 0;
    checks = 0;
    consecutive_fails = 0;
  };
  chat_complete = λ req w. (values (record { resp = some (saying answer); error = none }), w + 1);
}

abbrev scheduler : Scheduler ℕ
scheduler = record {
  closed = false;
  providers = provider "glm" "yes" ∷ provider "kimi" "no" ∷ [];
  provider_cfgs = [];
  retry = record {
    max_retries = pos 0;
    base_delay = pos 0;
    max_delay = pos 0;
    retryable = λ e. true;
  };
  retry_env = record { grow = λ k d. d; cancelled = λ k. false; expired = false };
  inject = λ name model req. req;
  chain = [];
  router = none;
  await_slot = λ w. (none, w);
  now_ms = λ w. w;
  record_id = λ name start id. name;
  error_text = λ e. "failed";
  cache_ttl_ms = 1000;
}

abbrev before : State ℕ
before = record { world = 0; held = 2; history = none; req_id = 0; avail_cache = none }

abbrev words : Words
words = record { trim_space = λ s. s; to_lower = λ s. s; fields = λ s. s ∷ [] }

abbrev await_two : ℕ → Option Error × ℕ
await_two w = (none, w)

chat_complete_dual-held_example :
    (chat_complete_dual words scheduler await_two true request 0 before).1.1.held ≡ 2
chat_complete_dual-held_example =
    chat_complete_dual-held words scheduler await_two true request 0 before

dual_answers :
    (chat_complete_dual words scheduler await_two true request 0 before).0
    ≡ ok (record { result1 = some (saying "yes"); result2 = some (saying "no"); consensus = false })
unfolding chat_complete_dual apply_before recovered add_one content_of
dual_answers = refl

-- Two providers of one name
abbrev twins : Scheduler ℕ
twins = record scheduler { providers = provider "glm" "yes" ∷ provider "glm" "no" ∷ [] }

twins_available :
    (available_providers twins before).0 ≡ provider "glm" "yes" ∷ provider "glm" "no" ∷ []
unfolding available_providers
twins_available = refl

twins_pass : (apply_before twins.chain request).0 ≡ none
unfolding apply_before
twins_pass = refl

twins_open : check_closed twins ≡ none
unfolding check_closed
twins_open = refl

chat_complete_dual-alone_example :
    chat_complete_dual words twins await_two true request 7 before
    ≡ alone
        (chat_complete twins
          (apply_before twins.chain request).1
          (available_providers twins before).1)
        ((7 + (1 + 2 * 2)) % 2 ^ 64)
chat_complete_dual-alone_example =
    chat_complete_dual-alone words twins (provider "glm" "yes") (provider "glm" "no" ∷ []) await_two
      true request 7 before twins_open refl twins_available (refl, tt) twins_pass

-- ===== src/Engine/Scheduler/Tests.antt =====
-- internal/engine/scheduler.go: a scheduler of two providers, of which the first panics.
use ao_eo.Base.{
  ℕ, ◌+◌, ◌≡◌, refl, ap, ◌∙◌, String, true, false, [], ◌∷◌, none, some, ok, panic, provider_panic,
  pos, negsuc,
}
use ao_eo.Core.Float32.{units}
use ao_eo.Core.Types.{Request, Response}
use ao_eo.Core.Router.{ProviderHealth, available_from}
use ao_eo.Core.Interceptor.{values, panicked, apply_before, apply_after}
use ao_eo.Engine.History.{new_history, record_call}
use ao_eo.Providers.Breaker.{ProviderConfig}
use ao_eo.Engine.Scheduler.{Provider, Router, Scheduler, State, pick_with_router, recovered}
use ao_eo.Engine.Scheduler.Complete.{chat_complete, unless_error, settle, when_picked, at_index}
use ao_eo.Engine.Scheduler.Fallback.{
  chat_complete_with_fallback, unless_answered, when_recorded, when_sequenced, finish,
}
use ao_eo.Engine.Scheduler.Slots.{chat_complete-held, chat_complete_with_fallback-held}
use ao_eo.Engine.Scheduler.Pick.{Picked, pick_with_router-Picked}
use ao_eo.Engine.Scheduler.Panics.{Returns, Quiet, chat_complete-Returns}
use ao_eo.Engine.Scheduler.FallbackPanics.{chat_complete_with_fallback-Returns}

abbrev request : Request
request = record {
  model = "";
  messages = [];
  temperature = units (pos 0);
  max_tokens = pos 0;
  top_p = units (pos 0);
  presence_penalty = units (pos 0);
  frequency_penalty = units (pos 0);
  stop = [];
  seed = none;
  response_format = "";
  stream = false;
  tags = [];
  tools = [];
  tool_choice = "";
  parallel_tool_calls = false;
  metadata = [];
}

abbrev response : Response
response = record {
  id = "r";
  model = "m";
  choices = [];
  usage = record { prompt_tokens = 10; completion_tokens = 20; total_tokens = 30 };
  created_at = 0;
}

abbrev config_named : String → ProviderConfig
config_named name = record {
  name = name;
  api_key = "k";
  endpoint = "e";
  model = "m";
  max_concurrent = pos 1;
  pricing = record { prompt_per_1k = pos 0; completion_per_1k = pos 0; currency = "" };
  max_failures = pos 3;
  cooldown_duration = pos 0;
}

abbrev healthy : ProviderHealth
healthy = record {
  last_latency_ms = 0;
  avg_latency_ms = 0;
  successes = 0;
  checks = 0;
  consecutive_fails = 0;
}

-- The world is the clock, and a call takes a tick.
abbrev breaking : Provider ℕ
breaking = record {
  config = config_named "glm";
  is_available = λ w. true;
  health = λ w. healthy;
  chat_complete = λ req w. (panicked "broken", w + 1);
}

abbrev answering : Provider ℕ
answering = record {
  config = config_named "kimi";
  is_available = λ w. true;
  health = λ w. healthy;
  chat_complete = λ req w. (values (record { resp = some response; error = none }), w + 1);
}

-- It asks for a provider that does not exist.
abbrev lost_router : Router ℕ
lost_router = record {
  select = λ status req w. (ok (negsuc 0), w);
  select_sequence = λ status req w. (ok (pos 0 ∷ pos 7 ∷ pos 1 ∷ []), w);
}

abbrev scheduler : Scheduler ℕ
scheduler = record {
  closed = false;
  providers = breaking ∷ answering ∷ [];
  provider_cfgs = [];
  retry = record {
    max_retries = pos 0;
    base_delay = pos 0;
    max_delay = pos 0;
    retryable = λ e. true;
  };
  retry_env = record { grow = λ k d. d; cancelled = λ k. false; expired = false };
  inject = λ name model req. req;
  chain = [];
  router = some lost_router;
  await_slot = λ w. (none, w);
  now_ms = λ w. w;
  record_id = λ name start id. name;
  error_text = λ e. "failed";
  cache_ttl_ms = 1000;
}

abbrev before : State ℕ
before = record {
  world = 5;
  held = 2;
  history = some (new_history (pos 2));
  req_id = 0;
  avail_cache = none;
}

same_router : (r : Router ℕ) → scheduler.router ≡ some r → lost_router ≡ r
same_router r e = ap (λ o. elim o as (λ _. Router ℕ) [ none ↦ lost_router | some q ↦ q ]) e

quiet : Quiet scheduler
quiet = record {
  select = λ r req st w m e k.
      (let answered : (lost_router.select st req w).0 ≡ panic m =
          ap (λ (q : Router ℕ). (q.select st req w).0) (same_router r e) ∙ k in
        cc answered);
  sequence = λ r req st w m e k.
      (let answered : (lost_router.select_sequence st req w).0 ≡ panic m =
          ap (λ (q : Router ℕ). (q.select_sequence st req w).0) (same_router r e) ∙ k in
        cc answered);
}

chat_complete-held_example : (chat_complete scheduler request before).1.held ≡ 2
chat_complete-held_example = chat_complete-held scheduler request before

chat_complete_with_fallback-held_example :
    (chat_complete_with_fallback scheduler request before).1.held ≡ 2
chat_complete_with_fallback-held_example = chat_complete_with_fallback-held scheduler request before

pick_with_router-Picked_example :
    Picked scheduler request 5 (pick_with_router scheduler request 5).0
pick_with_router-Picked_example = pick_with_router-Picked scheduler request 5

chat_complete-Returns_example : Returns (chat_complete scheduler request before)
unfolding new_history
chat_complete-Returns_example = chat_complete-Returns scheduler request before quiet refl

chat_complete_with_fallback-Returns_example :
    Returns (chat_complete_with_fallback scheduler request before)
unfolding new_history
chat_complete_with_fallback-Returns_example =
    chat_complete_with_fallback-Returns scheduler request before quiet refl

-- The provider asked for does not exist, so the first one is called, whose panic is an error.
broken_call :
    (chat_complete scheduler request before).0
    ≡ values (record { resp = none; error = some (provider_panic "broken") })
unfolding chat_complete unless_error settle when_picked at_index available_from apply_before
    record_call new_history apply_after recovered
broken_call = refl

-- The fallback goes on to the second provider.
answered_call :
    (chat_complete_with_fallback scheduler request before).0
    ≡ values (record { resp = some response; error = none })
unfolding chat_complete_with_fallback unless_error unless_answered when_recorded when_sequenced
    finish apply_before record_call new_history recovered apply_after
answered_call = refl

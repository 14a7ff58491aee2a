-- ===== src/Engine/Stream/Tests.antt =====
-- internal/engine/stream.go: a stream of two chunks under one hook.
use ao_eo.Base.{
  ℕ, ◌+◌, ◌≡◌, refl, String, Bool, true, false, List, [], ◌∷◌, ◌++◌, none, some, Outcome, ok, err,
  pos, str_eq, append, provider_panic, has, is_prefix, arith,
}
use ao_eo.Core.Float32.{units}
use ao_eo.Core.Types.{Request, Response, StreamChunk, StreamReply}
use ao_eo.Core.Interceptor.{values, Interceptor, apply_before, apply_after_stream_chunk}
use ao_eo.Engine.Scheduler.{Provider, Router, Scheduler, State}
use ao_eo.Engine.Stream.{
  Chain, Turn, closed, cancelled, received, Opened, opened, no_message, error_reply, pump,
  run_stream, chat_complete_stream, chat_complete_stream_with_router,
}
use ao_eo.Engine.Stream.Delivery.{AllPass, hooked, delivered, ends, pump-Ends}
use ao_eo.Engine.Stream.Lines.{parse_text}
use ao_eo.Engine.Stream.Events.{
  Written, event, other, body, events, WellWritten, end_mark, parse_text-body,
}
use ao_eo.Engine.Stream.Holding.{slots_after, stream-held}

abbrev request : Request
request = record {
  model = "";
  messages = [];
  temperature = units (pos 0);
  max_tokens = pos 0;
  top_p = units (pos 0);
  presence_penalty = units (pos 0);
  frequency_penalty = units (pos 0);
  stop = [];
  seed = none;
  response_format = "";
  stream = true;
  tags = [];
  tools = [];
  tool_choice = "";
  parallel_tool_calls = false;
  metadata = [];
}

abbrev chunk_of : String → StreamChunk
chunk_of s = record { index = 0; delta = record no_message { content = s }; finish_reason = "" }

abbrev reply_of : String → StreamReply
reply_of s = record {
  id = "r";
  model = "m";
  chunk = chunk_of s;
  usage = record { prompt_tokens = 0; completion_tokens = 0; total_tokens = 0 };
  error = none;
}

-- The hook refuses a chunk "bad", and writes a mark behind every other one.
abbrev judged : Bool → StreamChunk → Outcome (Unit {0}) × StreamChunk
judged true c = (err (provider_panic "bad"), c)
judged false c = (ok tt, chunk_of (append c.delta.content "."))

abbrev marking : Interceptor Request Response StreamChunk
marking = record {
  before_request = none;
  after_response = none;
  after_stream_chunk = some (λ req c. judged (str_eq c.delta.content "bad") c);
  after_stream_done = none;
}

abbrev chain : Chain
chain = marking ∷ []

abbrev broken_reply : StreamReply
broken_reply = error_reply (provider_panic "gone")

two_pass : AllPass chain request (reply_of "a" ∷ reply_of "b" ∷ [])
unfolding apply_after_stream_chunk
two_pass = (refl, refl, (refl, refl, tt))

bad_refused :
    (apply_after_stream_chunk chain request (reply_of "bad").chunk).0 ≡ some (provider_panic "bad")
unfolding apply_after_stream_chunk
bad_refused = refl

abbrev two : List StreamReply
two = reply_of "a" ∷ reply_of "b" ∷ []

pump-Ends_example :
    (pump chain request (delivered chain request two (closed ∷ []))
      ≡ ends chain request (hooked chain request two) none)
    × (pump chain request (delivered chain request two (cancelled (provider_panic "late") ∷ []))
        ≡ ends chain request (hooked chain request two) (some (provider_panic "late")))
    × (pump chain request (delivered chain request two (received broken_reply true ∷ []))
        ≡ ends chain request
            (hooked chain request two ++ broken_reply ∷ [])
            (some (provider_panic "gone")))
    × (pump chain request (delivered chain request two (received (reply_of "bad") true ∷ []))
        ≡ ends chain request
            (hooked chain request two ++ error_reply (provider_panic "bad") ∷ [])
            (some (provider_panic "bad")))
pump-Ends_example =
    pump-Ends chain request two [] (provider_panic "late") (provider_panic "gone")
      (provider_panic "bad") broken_reply (reply_of "bad") two_pass refl refl bad_refused

hooks_dot : hooked chain request two ≡ reply_of "a." ∷ reply_of "b." ∷ []
unfolding hooked apply_after_stream_chunk
hooks_dot = refl

-- Two events among other lines
abbrev lines : List Written
lines =
    other false ":comment"
    ∷ event true "{1}"
    ∷ other true ""
    ∷ other false "id: 1"
    ∷ event false ""
    ∷ event false "data: 2"
    ∷ []

lines-WellWritten : WellWritten lines
unfolding has is_prefix
lines-WellWritten = (
  refl,
  (refl, refl, omega arith),
  (
    (λ e. cc),
    (refl, refl, omega arith),
    (
      refl,
      (refl, refl, omega arith),
      (
        refl,
        (refl, refl, omega arith),
        ((λ e. cc), (refl, refl, omega arith), ((λ e. cc), (refl, refl, omega arith), tt)),
      ),
    ),
  ),
)

parse_text-body_example :
    (parse_text (body lines "data: late") ≡ events lines ++ parse_text "data: late")
    × (parse_text (body lines "") ≡ events lines)
    × (parse_text (body lines (body (end_mark true ∷ []) "data: late")) ≡ events lines)
parse_text-body_example = parse_text-body lines "data: late" true lines-WellWritten

-- TestParseSSE_InvalidFormat
skips_fields :
    parse_text "event: message\nid: 1\nretry: 1000\n:comment\ndata: valid\n\n" ≡ "valid" ∷ []
unfolding parse_text
skips_fields = refl

abbrev streaming_provider : Provider ℕ
streaming_provider = record {
  config = record {
    name = "glm";
    api_key = "k";
    endpoint = "e";
    model = "m";
    max_concurrent = pos 1;
    pricing = record { prompt_per_1k = pos 0; completion_per_1k = pos 0; currency = "" };
    max_failures = pos 3;
    cooldown_duration = pos 0;
  };
  is_available = λ w. true;
  health = λ w. record {
    last_latency_ms = 0;
    avg_latency_ms = 0;
    successes = 0;
    checks = 0;
    consecutive_fails = 0;
  };
  chat_complete = λ req w. (values (record { resp = none; error = none }), w);
}

abbrev first_router : Router ℕ
first_router = record {
  select = λ status req w. (ok (pos 0), w);
  select_sequence = λ status req w. (ok (pos 0 ∷ []), w);
}

abbrev scheduler : Scheduler ℕ
scheduler = record {
  closed = false;
  providers = streaming_provider ∷ [];
  provider_cfgs = [];
  retry = record {
    max_retries = pos 0;
    base_delay = pos 0;
    max_delay = pos 0;
    retryable = λ e. true;
  };
  retry_env = record { grow = λ k d. d; cancelled = λ k. false; expired = false };
  inject = λ name model req. req;
  chain = chain;
  router = none;
  await_slot = λ w. (none, w);
  now_ms = λ w. w;
  record_id = λ name start id. name;
  error_text = λ e. "failed";
  cache_ttl_ms = 1000;
}

abbrev before : State ℕ
before = record { world = 0; held = 2; history = none; req_id = 0; avail_cache = none }

abbrev turns : List Turn
turns = received (reply_of "a") true ∷ closed ∷ []

abbrev opens_all : Provider ℕ → Request → ℕ → Opened × ℕ
opens_all p req w = (opened, w + 1)

stream-held_example :
    ((run_stream chain turns (chat_complete_stream opens_all scheduler request before)).held
      ≡ slots_after chain turns 2 (chat_complete_stream opens_all scheduler request before))
    × ((run_stream chain turns
          (chat_complete_stream_with_router opens_all scheduler first_router request before)).held
        ≡ slots_after chain turns 2
            (chat_complete_stream_with_router opens_all scheduler first_router request before))
stream-held_example = stream-held opens_all scheduler turns first_router request before

-- The stream runs and gives its slot back.
slot_back :
    (run_stream chain turns (chat_complete_stream opens_all scheduler request before)).held ≡ 2
unfolding run_stream chat_complete_stream apply_before apply_after_stream_chunk
slot_back = refl

-- ===== src/Privacy/Gateway/Tests.antt =====
-- privacy/gateway.go
use mathlib.Core.List.{mem-singleton}
use ao_eo.Base.{
  ℕ, ◌+◌, ◌≡◌, refl, String, Bool, true, false, not, ◌&&◌, List, [], ◌∷◌, Option, none, some,
  str_eq, String-set, codes, pos, has, exchange_sort,
}
use ao_eo.Core.Float32.{units}
use ao_eo.Core.Types.{Request, Response, Message, PrivacyMapping, content_of}
use ao_eo.Engine.Stream.{no_message}
use ao_eo.Privacy.Balancer.{Balancer, Sidecars, failed, round_robin, balancer_for}
use ao_eo.Privacy.Adapter.Balanced.{balanced_client}
use ao_eo.Privacy.Adapter
use ao_eo.Privacy.Endpoints.{all_blank, is_nil}
use ao_eo.Privacy.Pseudonymizer.{Span, Entry, Vault, pseudonymize_request, sort_spans, shorter}
use ao_eo.Privacy.Pseudonymizer.Restoring.{entries_of}
use ao_eo.Privacy.Pseudonymizer.Pieces.{plain}
use ao_eo.Privacy.Pseudonymizer.Restoration.{AllMarked}
use ao_eo.Privacy.Pseudonymizer.Reuse.{Lacks}
use ao_eo.Privacy.Gateway.{
  Carrying, Hooked, Stats, before_request, handed_on, after_response, new_source,
  extract_session_id,
}
use ao_eo.Privacy.Gateway.Endpoint.{is_panic, new_source-panic}
use ao_eo.Privacy.Gateway.Passage.{
  Down, balanced_client-Down, before_request-Down, reused_value-unrestored,
}

new_source-panic_example :
    is_panic (new_source false (codes ",") (pos 0))
    ≡ (not false && (not (is_nil (codes ",")) && all_blank (codes ",")))
new_source-panic_example = new_source-panic false (codes ",") (pos 0)

new_source_panics : is_panic (new_source false (codes ",") (pos 0)) ≡ true
unfolding new_source
new_source_panics = refl

abbrev request_of : List Message → Request
request_of ms = record {
  model = "";
  messages = ms;
  temperature = units (pos 0);
  max_tokens = pos 0;
  top_p = units (pos 0);
  presence_penalty = units (pos 0);
  frequency_penalty = units (pos 0);
  stop = [];
  seed = none;
  response_format = "";
  stream = false;
  tags = "session:s1" ∷ [];
  tools = [];
  tool_choice = "";
  parallel_tool_calls = false;
  metadata = [];
}

abbrev says : String → Message
says s = record no_message { role = "user"; content = s }

abbrev before : Carrying
before = record { request = request_of (says "Bob met Al" ∷ []); mappings = none }

abbrev no_stats : Stats
no_stats = record { pseudonymized = 0; restored = 0; failed = 0; spans = 0 }

-- Bob has a mapping in the session, Al has none.
abbrev fake_if_bob : Bool → Option String
fake_if_bob true = some "#1"
fake_if_bob false = none

abbrev found : List Span
found =
    record { start = 0; end = 3; label = "person"; original = "Bob" }
    ∷ record { start = 8; end = 10; label = "person"; original = "Al" }
    ∷ []

abbrev original_if_fake : Bool → Option String
original_if_fake true = some "Bob"
original_if_fake false = none

abbrev vault : Vault ℕ
vault = record {
  get_fake = λ s o w. fake_if_bob (str_eq o "Bob");
  get_original = λ s f w. original_if_fake (str_eq f "#1");
  put = λ s f o l w. (none, w);
  get_session = λ s w. (none, []);
  generate = λ l o w. ("%2", w);
  detect_batch = λ ts w. (found ∷ [], w);
  now = λ w. w;
}

-- A balancer whose two sidecars time out on every call
abbrev dead : Sidecars ℕ
dead = record {
  detect = λ i t w. (failed "timeout", w + 1);
  detect_batch = λ i ts w. (failed "timeout", w + 1);
  health_check = λ i w. ((false, some "timeout"), w);
  now = λ w. w;
  intn = λ n w. (0, w);
  ewma = λ old d. old;
}

abbrev two : Balancer
two = balancer_for (codes "a" ∷ codes "b" ∷ []) round_robin 10 false

dead-Down : Down (balanced_client dead)
dead-Down = balanced_client-Down dead (λ i t w. ("timeout", refl)) (λ i t ts w. ("timeout", refl))

abbrev dead_vault : Vault (Balancer × ℕ)
dead_vault = record {
  get_fake = λ s o w. none;
  get_original = λ s f w. none;
  put = λ s f o l w. (none, w);
  get_session = λ s w. (none, []);
  generate = λ l o w. ("%2", w);
  detect_batch = Adapter.detect_batch (balanced_client dead);
  now = λ w. w.1;
}

before_request-Down_example :
    (w' : Balancer × ℕ) × (before_request dead_vault false none 0 before no_stats (two, 0)
      ≡ some (record { error = none; carrying = before; stats = no_stats; world = w' }))
before_request-Down_example =
    before_request-Down (balanced_client dead) dead-Down dead_vault false none 0 before no_stats
      (two, 0)

-- Al is mapped to %2, so that the response keeps the mark of Bob.
abbrev al : PrivacyMapping
al = record { session = "s1"; original = "Al"; fake = "%2"; kind = "person"; created_at = 0 }

abbrev sent : Hooked ℕ
sent = record {
  error = none;
  carrying = record { request = request_of (says "#1 met %2" ∷ []); mappings = some (al ∷ []) };
  stats = record { pseudonymized = 1; restored = 0; failed = 0; spans = 1 };
  world = 0;
}

before_sends : before_request vault false none 5 before no_stats 0 ≡ some sent
unfolding before_request pseudonymize_request handed_on extract_session_id exchange_sort shorter
    sort_spans
before_sends = refl

abbrev reply : Response
reply = record {
  id = "r";
  model = "m";
  choices = record { index = 0; message = says "#1 says hi"; finish_reason = "stop" } ∷ [];
  usage = record { prompt_tokens = 1; completion_tokens = 1; total_tokens = 2 };
  created_at = 0;
}

Entry-set : IsSet Entry
Entry-set = hlevel String-set

al_Marked : AllMarked (entries_of (al ∷ [])) (plain "#1 says hi" ∷ [])
unfolding entries_of has
al_Marked e m = rw ((mem-singleton Entry-set).0 m) (refl, tt)

reused_value-unrestored_example :
    Lacks "Bob" (al ∷ [])
    × (content_of (after_response vault false none sent.carrying (some reply) no_stats 0).0.0
        ≡ "#1 says hi")
reused_value-unrestored_example =
    reused_value-unrestored vault false none 5 before no_stats 0 "Bob" (λ w' e. cc) refl sent
      before_sends al [] refl reply "#1 says hi" (_, _, refl, refl) al_Marked no_stats 0

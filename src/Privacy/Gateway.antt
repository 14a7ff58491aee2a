-- ===== src/Privacy/Gateway.antt =====
-- privacy/gateway.go: Gateway, the interceptor around the pseudonymizer. The metadata entry
-- "privacy_mappings" of a request is a field beside the request here. Log output is left out.
pub mod Endpoint
pub mod Passage
mod Tests
use ao_eo.Base.{
  ℕ, zero, suc, ◌+◌, String, Bool, true, false, List, [], ◌∷◌, length, Option, none, some,
  if◌then◌else◌, str_eq, Text, ltb, ℤ, pos, negsuc, Outcome, ok, err, panic, is_prefix, drop_chars,
}
use ao_eo.Core.Types.{Request, Response, StreamChunk, StreamReply, PrivacyMapping}
use ao_eo.Core.Interceptor.{Reply}
use ao_eo.Privacy.Balancer.{Balancer, Strategy, round_robin, random, least_latency, new_balancer}
use ao_eo.Privacy.Endpoints.{split_endpoints}
use ao_eo.Privacy.Pseudonymizer.{Vault, Pass, passed, refused, stuck, pseudonymize_request}
use ao_eo.Privacy.Pseudonymizer.Restoring.{
  restore_with_mappings, restore_response, restore_stream_chunk,
}

-- Stats
pub record Stats : Type 0 where
  pub pseudonymized : ℕ
  pub restored : ℕ
  pub failed : ℕ
  pub spans : ℕ

-- A request on its way, with the mappings that its metadata carries
pub record Carrying : Type 0 where
  pub request : Request
  pub mappings : Option (List PrivacyMapping)

-- What a hook returns of an error: none, or its text
pub record Hooked (W : Type 0) : Type 0 where
  pub error : Option String
  pub carrying : Carrying
  pub stats : Stats
  pub world : W

unfoldable pub session_of_tags : List String → String
unfolding drop_chars is_prefix
session_of_tags [] = "default"
session_of_tags (tag ∷ tags) =
    if is_prefix "session:" tag then drop_chars "session:" tag else session_of_tags tags

-- extractSessionID; the first argument is the text under the context's key, if there is one
unfoldable pub extract_session_id : Option String → List String → String
unfolding session_of_tags
extract_session_id none tags = session_of_tags tags
extract_session_id (some s) tags = if str_eq s "" then session_of_tags tags else s

abbrev pub carried :
    List PrivacyMapping → Option (List PrivacyMapping) → Option (List PrivacyMapping)
carried [] before = before
carried (m ∷ ms) before = some (m ∷ ms)

abbrev pub counted : List PrivacyMapping → Stats → Stats
counted [] st = st
counted (m ∷ ms) st = record st {
  pseudonymized = st.pseudonymized + 1;
  spans = st.spans + length (m ∷ ms);
}

module _ {W : Type 0} (v : Vault W) (fail_open : Bool) where
  -- BeforeRequest, after the pseudonymizer; `none` while it has not returned
  unfoldable pub handed_on :
      Pass W (Request × (List PrivacyMapping × W)) → Carrying → Stats → Option (Hooked W)
  handed_on stuck before st = none
  handed_on (refused e w) before st = some (record {
    error = if fail_open then none else some e;
    carrying = before;
    stats = record st { failed = st.failed + 1 };
    world = w;
  })
  handed_on (passed (req, (ms, w'))) before st = some (record {
    error = none;
    carrying = record { request = req; mappings = carried ms before.mappings };
    stats = counted ms st;
    world = w';
  })

  unfoldable pub before_request : Option String → ℕ → Carrying → Stats → W → Option (Hooked W)
  unfolding handed_on extract_session_id
  before_request ctx fuel before st w =
      let session = extract_session_id ctx before.request.tags in
      handed_on (pseudonymize_request v session fuel before.request w) before st

  -- The response and an error's text
  abbrev pub restored_or :
      Option String × Option Response → Option Response → Option Response × Option String
  restored_or (none, restored) resp = (restored, none)
  restored_or (some e, restored) resp = if fail_open then (resp, none) else (none, some e)

  -- AfterResponse for a call without an error, with the mappings of the request's metadata
  unfoldable pub after_response :
      Option String
      → Carrying
      → Option Response
      → Stats
      → W
      → (Option Response × Option String) × Stats
  unfolding extract_session_id
  after_response ctx sent none st w = ((none, none), st)
  after_response ctx sent (some resp) st w = elim sent.mappings [
    | some (m ∷ ms) ↦ (
      (restore_with_mappings (some resp) (m ∷ ms), none),
      record st { restored = st.restored + 1 },
    )
    | _ ↦ (
      restored_or (restore_response v (extract_session_id ctx sent.request.tags) (some resp) w)
          (some resp),
      st,
    )
  ]

  -- AfterStreamChunk: the chunk is wrapped, restored and unwrapped.
  unfoldable pub after_stream_chunk : Option String → Carrying → StreamReply → W → StreamChunk
  unfolding extract_session_id
  after_stream_chunk ctx sent wrapped w =
      (restore_stream_chunk v (extract_session_id ctx sent.request.tags)
        (record wrapped { error = none }) w).chunk

-- What NewGateway detects with
pub data Source : Type 0 where
  injected noop : Source
  balanced : Balancer → Source
  single : Text → Source

abbrev pub strategy_of : ℤ → Strategy
strategy_of (negsuc n) = round_robin
strategy_of (pos n) = elim n [
  | zero ↦ round_robin
  | suc k ↦ elim k [ zero ↦ random | suc j ↦ elim j [ zero ↦ least_latency | suc i ↦ round_robin ] ]
]

-- NewLoadBalancedClient for several endpoints, with its default options; endpoints[0] otherwise
unfoldable pub client_for : List Text → Text → ℤ → Outcome Source
client_for [] endpoint strategy = panic "index out of range"
client_for (ep ∷ []) endpoint strategy = ok (single ep)
client_for (ep ∷ ep' ∷ eps) endpoint strategy =
    ok (balanced (new_balancer endpoint (strategy_of strategy) 10_000_000_000 true))

-- The choice of the detector in NewGateway; the first argument says whether one is given.
unfoldable pub new_source : Bool → Text → ℤ → Outcome Source
unfolding client_for split_endpoints
new_source true endpoint strategy = ok injected
new_source false [] strategy = ok noop
new_source false (c ∷ endpoint) strategy =
    client_for (split_endpoints (c ∷ endpoint)) (c ∷ endpoint) strategy

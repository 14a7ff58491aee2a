-- ===== src/Engine/Scheduler.antt =====
-- internal/engine/scheduler.go: one request through the scheduler. The world `W` is what providers,
-- the clock and contexts stand for: a provider's answer may change it. The slots of the semaphore
-- are counted here as the request holds them; who gets one is the semaphore's.
pub mod Pick
pub mod Slots
pub mod Lifecycle
pub mod Panics
pub mod Complete
pub mod Fallback
pub mod Cases
pub mod FallbackPanics
mod Tests
use ao_eo.Base.{
  ℕ, zero, suc, ◌+◌, ◌-◌, String, Bool, true, false, ◌&&◌, List, [], ◌∷◌, length, get_elem?, Option,
  none, some, Outcome, ok, err, panic, Error, scheduler_closed, no_available_provider,
  provider_panic, all_providers_failed, ltb, ◌==◌, if◌then◌else◌, str_eq, ℤ, pos, negsuc, is_nonpos,
  drop,
}
use ao_eo.Core.Types.{Request, Response, StreamChunk}
use ao_eo.Core.Pricing.{Pricing, cost, default_pricing}
use ao_eo.Core.Router.{ProviderHealth, ProviderStatus, available_indices}
use ao_eo.Core.Interceptor.{
  Reply, Returned, values, panicked, Interceptor, apply_before, apply_after,
}
use ao_eo.Engine.Retry.{Env, RetryConfig, Run, do_retry}
use ao_eo.Engine.History.{CallRecord, History, record_call}
use ao_eo.Providers.Breaker.{ProviderConfig}

-- The interface providers.Provider, as far as a request uses it
pub record Provider (W : Type 0) : Type 0 where
  pub config : ProviderConfig
  pub is_available : W → Bool
  pub health : W → ProviderHealth
  pub chat_complete : Request → W → Returned (Reply Response) × W

-- The interface core.Router; it answers with any integer.
pub record Router (W : Type 0) : Type 0 where
  pub select : List ProviderStatus → Request → W → Outcome ℤ × W
  pub select_sequence : List ProviderStatus → Request → W → Outcome (List ℤ) × W

-- The fields of a Scheduler that a request reads; `inject` is the prompt injector, `await_slot` how
-- the semaphore's Acquire ends under the request's context.
pub record Scheduler (W : Type 0) : Type 0 where
  pub closed : Bool
  pub providers : List (Provider W)
  pub provider_cfgs : List ProviderConfig
  pub retry : RetryConfig
  pub retry_env : Env
  pub inject : String → String → Request → Request
  pub chain : List (Interceptor Request Response StreamChunk)
  pub router : Option (Router W)
  pub await_slot : W → Option Error × W
  pub now_ms : W → ℕ
  pub record_id : String → ℕ → ℕ → String
  pub error_text : Error → String
  pub cache_ttl_ms : ℕ

-- What a request changes: `held` is the number of slots taken and not given back.
pub record State (W : Type 0) : Type 0 where
  pub world : W
  pub held : ℕ
  pub history : Option History
  pub req_id : ℕ
  pub avail_cache : Option (List (Provider W) × ℕ)

abbrev pub failure : Error → Reply Response
failure e = record { resp = none; error = some e }

-- checkClosed
unfoldable pub check_closed : {W : Type 0} → Scheduler W → Option Error
check_closed sch = if sch.closed then some scheduler_closed else none

-- ProviderStatus, from provider i on; the model is that of the configuration applied, if any.
unfoldable pub status_from :
    {W : Type 0} → List (Provider W) → List ProviderConfig → W → List ProviderStatus
status_from [] cfgs w = []
status_from (p ∷ ps) cfgs w =
    record {
      name = p.config.name;
      available = p.is_available w;
      model = elim cfgs [ [] ↦ p.config.model | cfg ∷ _ ↦ cfg.model ];
      health = p.health w;
    }
    ∷ status_from ps (drop 1 cfgs) w

unfoldable pub provider_status : {W : Type 0} → Scheduler W → W → List ProviderStatus
unfolding status_from
provider_status sch w = status_from sch.providers sch.provider_cfgs w

abbrev pub marked : ℕ → Option ProviderStatus → Option ℕ
marked i none = none
marked i (some st) = if st.available then some i else none

-- An index that the router gave, when it is one of an available candidate
unfoldable pub usable : ℤ → List ProviderStatus → Option ℕ
usable (negsuc n) status = none
usable (pos i) status = marked i (get_elem? status i)

abbrev pub or_first : Option ℕ → ℕ → Outcome ℕ
or_first none first = ok first
or_first (some i) first = ok i

-- The router's choice, or else the first available provider
unfoldable pub choose : Outcome ℤ → List ProviderStatus → ℕ → Outcome ℕ
unfolding usable
choose (ok idx) status first = or_first (usable idx status) first
choose (err e) status first = ok first
choose (panic r) status first = panic r

-- What one call of the provider leaves: the variables `resp` and `err`, with `err` a panic until the
-- deferred recover has turned it into an error.
pub record Called (W : Type 0) : Type 0 where
  pub resp : Option Response
  pub outcome : Outcome (Unit {0})
  pub world : W

-- err, after the deferred recover
unfoldable pub recovered : Outcome (Unit {0}) → Option Error
recovered (ok _) = none
recovered (err e) = some e
recovered (panic r) = some (provider_panic r)

abbrev is_zero : ℤ → Bool
is_zero (pos n) = n == 0
is_zero (negsuc n) = false

module _ {W : Type 0} where
  -- pickWithSpecificRouter
  unfoldable pub pick_with : Router W → List ProviderStatus → ℕ → Request → W → Outcome ℕ × W
  unfolding choose
  pick_with r status first req w =
      (choose (r.select status req w).0 status first, (r.select status req w).1)

  -- pickWithRouter, from the available indices on
  unfoldable pub first_or_routed :
      List ℕ → Option (Router W) → List ProviderStatus → Request → W → Outcome ℕ × W
  unfolding pick_with
  first_or_routed [] router status req w = (err no_available_provider, w)
  first_or_routed (first ∷ rest) none status req w = (ok first, w)
  first_or_routed (first ∷ rest) (some r) status req w = pick_with r status first req w

  -- pickWithRouter; the index of the provider
  unfoldable pub pick_with_router : Scheduler W → Request → W → Outcome ℕ × W
  unfolding first_or_routed provider_status
  pick_with_router sch req w =
      let status = provider_status sch w in
      first_or_routed (available_indices status) sch.router status req w

  abbrev pub acquired : Option Error → State W → State W
  acquired none s = record s { held = s.held + 1 }
  acquired (some e) s = s

  -- Acquire, and Release
  unfoldable pub acquire : Scheduler W → State W → Option Error × State W
  acquire sch s =
      let waited = sch.await_slot s.world in
      (waited.0, acquired waited.0 (record s { world = waited.1 }))

  unfoldable pub release : State W → State W
  release s = record s { held = s.held - 1 }

  -- The copy of the request that goes to provider p
  unfoldable pub request_for : Scheduler W → Provider W → Request → Request
  request_for sch p req =
      let model = if str_eq req.model "" then p.config.model else req.model in
      sch.inject p.config.name model (record req { model = model })

  -- resp, innerErr = p.ChatComplete(providerCtx, reqCopy)
  unfoldable pub call_provider :
      Provider W → Request → Option Response × W → Outcome (Unit {0}) × (Option Response × W)
  call_provider p req (before, w) = elim (p.chat_complete req w).0 [
    | values r ↦
        (elim r.error [ none ↦ ok tt | some e ↦ err e ], (r.resp, (p.chat_complete req w).1))
    | panicked m ↦ (panic m, (before, (p.chat_complete req w).1))
  ]

  -- With retries, or without
  unfoldable pub call_with_retry : Scheduler W → Provider W → Request → W → Called W
  unfolding call_provider
  call_with_retry sch p req w =
      if is_nonpos sch.retry.max_retries
      then record {
        outcome = (call_provider p req (none, w)).0;
        resp = (call_provider p req (none, w)).1.0;
        world = (call_provider p req (none, w)).1.1;
      }
      else let run = do_retry sch.retry_env sch.retry (call_provider p req) (none, w) in
        record { outcome = run.outcome; resp = run.state.0; world = run.state.1 }

  unfoldable pub pricing_of : Provider W → Request → Pricing
  pricing_of p req =
      let own = p.config.pricing in
      let unset =
        str_eq own.currency "" && is_zero own.prompt_per_1k && is_zero own.completion_per_1k in
      if unset then default_pricing p.config.name req.model else own

  -- buildRecord, with `id` the next request number
  unfoldable pub build_record :
      Scheduler W
      → Provider W
      → Request
      → Reply Response
      → ℕ
      → ℕ
      → List String
      → String
      → ℕ
      → CallRecord
  unfolding pricing_of
  build_record sch p req reply start stop tags fallback_from id = record {
    id = sch.record_id p.config.name start id;
    provider = p.config.name;
    model = req.model;
    request = some req;
    response = reply.resp;
    error = elim reply.error [ none ↦ "" | some e ↦ sch.error_text e ];
    latency_ms = stop - start;
    timestamp = start;
    tags = tags;
    fallback_from = fallback_from;
    cost = elim reply.resp [ none ↦ pos 0 | some r ↦ cost r.usage (pricing_of p req) ];
    currency = elim reply.resp [ none ↦ "" | some r ↦ (pricing_of p req).currency ];
  }

  abbrev pub record_in :
      Option History → Scheduler W → (ℕ → CallRecord) → State W → Outcome (Unit {0}) × State W
  record_in none sch r s = (ok tt, s)
  record_in (some h) sch r s =
      let recorded = record_call (r (s.req_id + 1)) h in
      (recorded.0, record s { history = some recorded.1; req_id = s.req_id + 1 })

  -- if s.history != nil { s.history.Record(…) }, which may panic
  unfoldable pub record_history :
      Scheduler W
      → Provider W
      → Request
      → Reply Response
      → ℕ
      → List String
      → String
      → State W
      → Outcome (Unit {0}) × State W
  unfolding build_record
  record_history sch p req reply start tags from s =
      record_in s.history sch (build_record sch p req reply start (sch.now_ms s.world) tags from) s

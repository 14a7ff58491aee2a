-- ===== src/Engine/Scheduler/Fallback.antt =====
-- internal/engine/scheduler.go: ChatCompleteWithFallback.
use ao_eo.Base.{
  ℕ, ◌-◌, String, Bool, true, false, List, [], ◌∷◌, get_elem?, Option, none, some, Outcome, ok, err,
  panic, Error, no_available_provider, all_providers_failed, ltb, if◌then◌else◌, ℤ, pos, negsuc,
}
use ao_eo.Core.Types.{Request, Response}
use ao_eo.Core.Interceptor.{Reply, values, panicked, apply_before, apply_after}
use ao_eo.Engine.Scheduler.{
  Provider, Router, Scheduler, State, failure, check_closed, provider_status, acquire, release,
  request_for, call_with_retry, record_history,
}
use ao_eo.Engine.Scheduler.Complete.{Result, reply_of, unless_error}

module _ {W : Type 0} where
  -- if idx >= 0 && idx < len(s.providers) { order = append(order, s.providers[idx]) }
  unfoldable pub in_range : List (Provider W) → List ℤ → List (Provider W)
  in_range ps [] = []
  in_range ps (negsuc k ∷ rest) = in_range ps rest
  in_range ps (pos i ∷ rest) =
      let kept = in_range ps rest in elim (get_elem? ps i) [ none ↦ kept | some p ↦ p ∷ kept ]

  -- order, with the available providers where the router gives none
  unfoldable pub order_of : List (Provider W) → List ℤ → List (Provider W) → List (Provider W)
  unfolding in_range
  order_of ps seq available = elim (in_range ps seq) [ [] ↦ available | p ∷ rest ↦ p ∷ rest ]

  unfoldable pub available_of : List (Provider W) → W → List (Provider W)
  available_of [] w = []
  available_of (p ∷ ps) w =
      let rest = available_of ps w in if p.is_available w then p ∷ rest else rest

  -- The scan of AvailableProviders, and its entry in the cache
  unfoldable pub refresh : Scheduler W → State W → List (Provider W) × State W
  unfolding available_of
  refresh sch s =
      let now = available_of sch.providers s.world in
      (now, record s { avail_cache = some (now, sch.now_ms s.world) })

  abbrev pub cached_or_fresh :
      Option (List (Provider W) × ℕ) → Scheduler W → State W → List (Provider W) × State W
  cached_or_fresh none sch s = refresh sch s
  cached_or_fresh (some c) sch s =
      if ltb (sch.now_ms s.world - c.1) sch.cache_ttl_ms then (c.0, s) else refresh sch s

  -- AvailableProviders: those of the cache while it is fresh
  unfoldable pub available_providers : Scheduler W → State W → List (Provider W) × State W
  unfolding refresh
  available_providers sch s = cached_or_fresh s.avail_cache sch s

  -- One provider in its turn, with the slot taken: the call, the Release, the record. The first
  -- component is that of Record.
  unfoldable pub try_provider :
      Scheduler W
      → Provider W
      → Request
      → String
      → State W
      → Outcome (Unit {0}) × (Reply Response × State W)
  unfolding call_with_retry release record_history request_for
  try_provider sch p req fallback_from s =
      let copy = request_for sch p req in
      let called = call_with_retry sch p copy s.world in
      let recorded =
        record_history sch p copy (reply_of called) (sch.now_ms s.world) req.tags fallback_from
          (release (record s { world = called.world })) in
      (recorded.0, (reply_of called, recorded.1))

  -- A failed provider hands on to the next one.
  unfoldable pub unless_answered :
      Option Error → Reply Response → State W → (Error → Result W) → Result W
  unless_answered none reply s next = (values reply, s)
  unless_answered (some e) reply s next = next e

  unfoldable pub when_recorded : Outcome (Unit {0}) → State W → Result W → Result W
  when_recorded (panic r) s rest = (panicked r, s)
  when_recorded (ok u) s rest = rest
  when_recorded (err e) s rest = rest

  -- The loop over the rest of `order`, with `from` and `last` as the turns so far left them; `first`
  -- is i == 0. The order is not empty, so the first `last` is not read.
  unfoldable pub try_all :
      Scheduler W → Request → Bool → String → Error → List (Provider W) → State W → Result W
  unfolding acquire try_provider
  try_all sch req first from last [] s = (values (failure (all_providers_failed last)), s)
  try_all sch req first from last (p ∷ rest) s =
      let waited = acquire sch s in
      let tried = try_provider sch p req from waited.1 in
      unless_error waited.0 waited.1 (
        when_recorded tried.0 tried.1.1 (
          unless_answered tried.1.0.error tried.1.0 tried.1.1
            (λ e. try_all sch req false (if first then p.config.name else from) e rest tried.1.1)))

  -- The deferred ApplyAfter; a panic goes on past it.
  unfoldable pub finish : Scheduler W → Request → Result W → Result W
  finish sch req (values r, s) = (values (apply_after sch.chain req r), s)
  finish sch req (panicked m, s) = (panicked m, s)

  -- The router's sequence, empty where it gives an error
  unfoldable pub when_sequenced : Outcome (List ℤ) → State W → (List ℤ → Result W) → Result W
  when_sequenced (ok seq) s rest = rest seq
  when_sequenced (err e) s rest = rest []
  when_sequenced (panic m) s rest = (panicked m, s)

  -- From the router on
  unfoldable pub routed :
      Option (Router W) → Scheduler W → Request → List (Provider W) → State W → Result W
  unfolding order_of try_all
  routed none sch req available s = try_all sch req true "" no_available_provider available s
  routed (some r) sch req available s =
      let asked = r.select_sequence (provider_status sch s.world) req s.world in
      let s' = record s { world = asked.1 } in
      when_sequenced asked.0 s' (λ seq.
        try_all sch req true "" no_available_provider (order_of sch.providers seq available) s')

  unfoldable pub over_available : Scheduler W → Request → List (Provider W) → State W → Result W
  unfolding routed
  over_available sch req [] s = (values (failure no_available_provider), s)
  over_available sch req (p ∷ rest) s =
      let before = apply_before sch.chain req in
      unless_error before.0 s (finish sch before.1 (routed sch.router sch before.1 (p ∷ rest) s))

  -- ChatCompleteWithFallback
  unfoldable pub chat_complete_with_fallback : Scheduler W → Request → State W → Result W
  unfolding over_available available_providers check_closed
  chat_complete_with_fallback sch req s =
      let available = available_providers sch s in
      unless_error (check_closed sch) s (over_available sch req available.0 available.1)

-- ===== src/Engine/Scheduler/FallbackPanics.antt =====
-- internal/engine/scheduler.go: which panics reach the caller of ChatCompleteWithFallback.
use ao_eo.Base.{
  ℕ, ◌-◌, ◌≡◌, refl, inl, inr, List, [], ◌∷◌, String, Option, none, some, ok, Error, Bool, true,
  false, Bool-cases, ltb,
}
use ao_eo.Core.Types.{Request}
use ao_eo.Core.Interceptor.{values, panicked}
use ao_eo.Engine.Scheduler.{Provider, Router, Scheduler, State, acquire, release, record_history}
use ao_eo.Engine.Scheduler.Complete.{Result}
use ao_eo.Engine.Scheduler.Fallback.{
  try_provider, try_all, routed, over_available, available_providers, refresh, cached_or_fresh,
  finish, chat_complete_with_fallback,
}
use ao_eo.Engine.Scheduler.Cases.{
  unless_error-cases, unless_answered-cases, when_recorded-cases, when_sequenced-cases,
}
use ao_eo.Engine.Scheduler.Panics.{
  Recording, Returns, Quiet, calm, record_in-open, acquired-Recording,
}

module _ {W : Type 0} (sch : Scheduler W) where
  try_provider-open :
      (p : Provider W) (req : Request) (from : String) (s : State W)
      → Recording s.history
      → ((try_provider sch p req from s).0 ≡ ok tt)
        × Recording (try_provider sch p req from s).1.1.history
  unfolding try_provider record_history release
  try_provider-open p req from s h = record_in-open sch s.history _ _ h refl

  try_all-Returns :
      (req : Request) (first : Bool) (from : String) (last : Error) (order : List (Provider W))
      (s : State W)
      → Recording s.history
      → Returns (try_all sch req first from last order s)
  unfolding try_all acquire
  try_all-Returns req first from last [] s h = record { reply = _; gives = refl; recording = h }
  try_all-Returns req first from last (p ∷ rest) s h =
      let held = acquired-Recording sch _ _ h in
      let tried = try_provider-open p req from _ held in
      unless_error-cases Returns _ _ _ (λ e k. record { reply = _; gives = refl; recording = held })
        (λ k.
          when_recorded-cases Returns _ _ _ (λ r e. calm _ r tried.0 e)
            (unless_answered-cases Returns _ _ _ _
              (record { reply = _; gives = refl; recording = tried.1 })
              (λ e. try_all-Returns req false _ e rest _ tried.1)))

  routed-Returns :
      (o : Option (Router W)) (req : Request) (available : List (Provider W)) (s : State W)
      → Quiet sch
      → sch.router ≡ o
      → Recording s.history
      → Returns (routed o sch req available s)
  unfolding routed
  routed-Returns none req available s q e h = try_all-Returns req true "" _ available s h
  routed-Returns (some r) req available s q e h =
      when_sequenced-cases Returns _ _ _ (λ m k. absurd (q.sequence r req _ s.world m e k))
        (λ seq. try_all-Returns req true "" _ _ _ h)

  finish-Returns : (req : Request) (r : Result W) → Returns r → Returns (finish sch req r)
  unfolding finish
  finish-Returns req (values a, s) h = record { reply = _; gives = refl; recording = h.recording }
  finish-Returns req (panicked m, s) h = absurd (cc h.gives)

  over_available-Returns :
      (req : Request) (available : List (Provider W)) (s : State W)
      → Quiet sch
      → Recording s.history
      → Returns (over_available sch req available s)
  unfolding over_available
  over_available-Returns req [] s q h = record { reply = _; gives = refl; recording = h }
  over_available-Returns req (p ∷ rest) s q h =
      unless_error-cases Returns _ _ _ (λ e k. record { reply = _; gives = refl; recording = h })
        (λ k. finish-Returns _ _ (routed-Returns sch.router _ (p ∷ rest) s q refl h))

  cached_or_fresh-Recording :
      (o : Option (List (Provider W) × ℕ)) (s : State W)
      → Recording s.history
      → Recording (cached_or_fresh o sch s).1.history
  unfolding refresh
  cached_or_fresh-Recording none s h = h
  cached_or_fresh-Recording (some c) s h =
      elim (Bool-cases (ltb (sch.now_ms s.world - c.1) sch.cache_ttl_ms)) [
        | inl e ↦ rw e h
        | inr e ↦ rw e h
      ]

  -- Unless its router panics, and while the history is not closed, ChatCompleteWithFallback returns,
  -- though every provider and any hook panic, and leaves the history open.
  pub chat_complete_with_fallback-Returns :
      (req : Request) (s : State W)
      → Quiet sch
      → Recording s.history
      → Returns (chat_complete_with_fallback sch req s)
  unfolding chat_complete_with_fallback available_providers
  chat_complete_with_fallback-Returns req s q h =
      unless_error-cases Returns _ _ _ (λ e k. record { reply = _; gives = refl; recording = h })
        (λ k. over_available-Returns req _ _ q (cached_or_fresh-Recording s.avail_cache s h))

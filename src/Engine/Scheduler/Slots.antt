-- ===== src/Engine/Scheduler/Slots.antt =====
-- internal/engine/scheduler.go: a request gives back every slot that it takes.
use ao_eo.Base.{
  ℕ, ◌+◌, ◌-◌, ◌≡◌, refl, ap, ◌∙◌, List, [], ◌∷◌, String, Option, none, some, Error, Bool, true,
  false, arith, Bool-cases, inl, inr, ltb,
}
use ao_eo.Core.Types.{Request, Response}
use ao_eo.Core.Interceptor.{Reply, values, panicked}
use ao_eo.Engine.History.{CallRecord, History}
use ao_eo.Engine.Scheduler.{
  Provider, Router, Scheduler, State, acquired, acquire, release, record_in, record_history,
}
use ao_eo.Engine.Scheduler.Complete.{
  Result, on_provider, with_provider, with_slot, released, chat_complete,
}
use ao_eo.Engine.Scheduler.Fallback.{
  try_provider, try_all, routed, over_available, available_providers, refresh, cached_or_fresh,
  finish, chat_complete_with_fallback,
}
use ao_eo.Engine.Scheduler.Cases.{
  unless_error-cases, settle-cases, at_index-cases, when_picked-cases, unless_answered-cases,
  when_recorded-cases, when_sequenced-cases,
}

-- A call that ends with `n` slots held
record Holding {W : Type 0} (n : ℕ) (r : Result W) : Type 0 where
  pub same : r.1.held ≡ n

module _ {W : Type 0} (sch : Scheduler W) where
  record_in-held :
      (o : Option History) (r : ℕ → CallRecord) (s : State W)
      → (record_in o sch r s).1.held ≡ s.held
  record_in-held none r s = refl
  record_in-held (some h) r s = refl

  on_provider-held :
      (p : Provider W) (req : Request) (tags : List String) (s : State W)
      → Holding s.held (on_provider sch p req tags s)
  unfolding on_provider record_history
  on_provider-held p req tags s =
      settle-cases (Holding s.held) _ _ _ (record { same = record_in-held s.history _ _ })
        (λ r e. record { same = record_in-held s.history _ _ })

  with_provider-held :
      (p : Provider W) (req : Request) (s : State W) → Holding s.held (with_provider sch p req s)
  unfolding with_provider
  with_provider-held p req s =
      unless_error-cases (Holding s.held) _ _ _ (λ e h. record { same = refl })
        (λ h. on_provider-held p _ req.tags s)

  with_slot-held : (req : Request) (s : State W) → Holding s.held (with_slot sch req s)
  unfolding with_slot
  with_slot-held req s =
      when_picked-cases (Holding s.held) _ _ _ (λ e. record { same = refl })
        (λ r e. record { same = refl })
        (λ i h.
          at_index-cases (Holding s.held) _ _ _ (λ e. record { same = refl })
            (λ p. with_provider-held p req _))

  acquired-held : (o : Option Error) (s : State W) → o ≡ none → (acquired o s).held ≡ s.held + 1
  acquired-held none s h = refl
  acquired-held (some e) s h = absurd (cc h)

  refused-held :
      (o : Option Error) (s : State W) (e : Error) → o ≡ some e → (acquired o s).held ≡ s.held
  refused-held none s e h = absurd (cc h)
  refused-held (some e') s e h = refl

  completed-held : (req : Request) (s : State W) → Holding s.held (chat_complete sch req s)
  unfolding chat_complete acquire released
  completed-held req s =
      unless_error-cases (Holding s.held) _ _ _ (λ e h. record { same = refl })
        (λ h.
          unless_error-cases (Holding s.held) _ _ _ (λ e k. record { same = refused-held _ _ e k })
            (λ k. record {
              same =
                  ap (λ n. n - 1) ((with_slot-held req _).same ∙ acquired-held _ _ k) ∙ omega arith;
            }))

  -- Whichever way ChatComplete ends, in a reply, an error or a panic, the request holds as many slots
  -- as before it.
  pub chat_complete-held : (req : Request) (s : State W) → (chat_complete sch req s).1.held ≡ s.held
  chat_complete-held req s = (completed-held req s).same

  try_provider-held :
      (p : Provider W) (req : Request) (from : String) (s : State W)
      → (try_provider sch p req from s).1.1.held ≡ s.held - 1
  unfolding try_provider record_history release
  try_provider-held p req from s = record_in-held s.history _ _

  try_all-held :
      (req : Request) (first : Bool) (from : String) (last : Error) (order : List (Provider W))
      (s : State W)
      → Holding s.held (try_all sch req first from last order s)
  unfolding try_all acquire
  try_all-held req first from last [] s = record { same = refl }
  try_all-held req first from last (p ∷ rest) s =
      unless_error-cases (Holding s.held) _ _ _ (λ e k. record { same = refused-held _ _ e k })
        (λ k.
          let back =
            try_provider-held p req from _ ∙ ap (λ n. n - 1) (acquired-held _ _ k) ∙ omega arith in
          when_recorded-cases (Holding s.held) _ _ _ (λ r e. record { same = back })
            (unless_answered-cases (Holding s.held) _ _ _ _ (record { same = back })
              (λ e. record { same = (try_all-held req false _ e rest _).same ∙ back })))

  routed-held :
      (o : Option (Router W)) (req : Request) (available : List (Provider W)) (s : State W)
      → Holding s.held (routed o sch req available s)
  unfolding routed
  routed-held none req available s = try_all-held req true "" _ available s
  routed-held (some r) req available s =
      when_sequenced-cases (Holding s.held) _ _ _ (λ m e. record { same = refl })
        (λ seq. record { same = (try_all-held req true "" _ _ _).same })

  finish-held : (req : Request) (n : ℕ) (r : Result W) → Holding n r → Holding n (finish sch req r)
  unfolding finish
  finish-held req n (values a, s) h = record { same = h.same }
  finish-held req n (panicked m, s) h = record { same = h.same }

  over_available-held :
      (req : Request) (available : List (Provider W)) (s : State W)
      → Holding s.held (over_available sch req available s)
  unfolding over_available
  over_available-held req [] s = record { same = refl }
  over_available-held req (p ∷ rest) s =
      unless_error-cases (Holding s.held) _ _ _ (λ e k. record { same = refl })
        (λ k. finish-held _ s.held _ (routed-held sch.router _ (p ∷ rest) s))

  cached_or_fresh-held :
      (o : Option (List (Provider W) × ℕ)) (s : State W) → (cached_or_fresh o sch s).1.held ≡ s.held
  unfolding refresh
  cached_or_fresh-held none s = refl
  cached_or_fresh-held (some c) s =
      elim (Bool-cases (ltb (sch.now_ms s.world - c.1) sch.cache_ttl_ms)) [
        | inl e ↦ rw e refl
        | inr e ↦ rw e refl
      ]

  fallback-held :
      (req : Request) (s : State W) → Holding s.held (chat_complete_with_fallback sch req s)
  unfolding chat_complete_with_fallback available_providers
  fallback-held req s =
      unless_error-cases (Holding s.held) _ _ _ (λ e k. record { same = refl })
        (λ k. record {
          same = (over_available-held req _ _).same ∙ cached_or_fresh-held s.avail_cache s;
        })

  -- Whichever way ChatCompleteWithFallback ends, however many providers it went through, the request
  -- holds as many slots as before it.
  pub chat_complete_with_fallback-held :
      (req : Request) (s : State W) → (chat_complete_with_fallback sch req s).1.held ≡ s.held
  chat_complete_with_fallback-held req s = (fallback-held req s).same

  pub acquire-held : (s : State W) → (acquire sch s).0 ≡ none → (acquire sch s).1.held ≡ s.held + 1
  unfolding acquire
  acquire-held s h = acquired-held (sch.await_slot s.world).0 _ h

  pub acquire-failed :
      (s : State W) (e : Error) → (acquire sch s).0 ≡ some e → (acquire sch s).1.held ≡ s.held
  unfolding acquire
  acquire-failed s e h = refused-held (sch.await_slot s.world).0 _ e h

  pub available-held : (s : State W) → (available_providers sch s).1.held ≡ s.held
  unfolding available_providers
  available-held s = cached_or_fresh-held s.avail_cache s

  pub record_history-held :
      (p : Provider W) (req : Request) (reply : Reply Response) (start : ℕ) (tags : List String)
      (from : String) (s : State W)
      → (record_history sch p req reply start tags from s).1.held ≡ s.held
  unfolding record_history
  record_history-held p req reply start tags from s = record_in-held s.history _ s

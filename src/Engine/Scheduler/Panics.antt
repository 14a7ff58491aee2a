-- ===== src/Engine/Scheduler/Panics.antt =====
-- internal/engine/scheduler.go: which panics reach the caller.
use ao_eo.Base.{
  ℕ, ◌+◌, ◌≡◌, ◌≢◌, refl, ap, ◌∙◌, List, [], ◌∷◌, String, Option, none, some, Outcome, ok, err,
  panic, Error, Bool, true, false, get_elem?, ltb, length, ◌++◌, if◌then◌else◌,
}
use ao_eo.Core.Types.{Request, Response}
use ao_eo.Core.Interceptor.{Reply, values}
use ao_eo.Core.Router.{ProviderStatus}
use ao_eo.Engine.History.{
  CallRecord, History, Storage, record_call, offer, enqueue, persist, queue_cap,
}
use ao_eo.Engine.Scheduler.{
  Provider, Router, Scheduler, State, acquired, acquire, release, record_in, record_history,
}
use ao_eo.Engine.Scheduler.Pick.{Picked, pick_with_router-Picked}
use ao_eo.Engine.Scheduler.Complete.{
  Result, on_provider, with_provider, with_slot, released, chat_complete,
}
use ao_eo.Engine.Scheduler.Cases.{
  unless_error-cases, settle-cases, at_index-cases, when_picked-cases,
}

-- There is no history, or it is not closed.
abbrev pub Recording : Option History → Type 0
Recording none = Unit {0}
Recording (some h) = h.closed ≡ false

-- The call returns to its caller, and leaves a history that is not closed.
pub record Returns {W : Type 0} (r : Result W) : Type 0 where
  pub reply : Reply Response
  pub gives : r.0 ≡ values reply
  pub recording : Recording r.1.history

-- The router of the scheduler, where it has one, does not panic.
pub record Quiet {W : Type 0} (sch : Scheduler W) : Type 0 where
  pub select :
      (r : Router W) (req : Request) (status : List ProviderStatus) (w : W) (m : String)
      → sch.router ≡ some r
      → (r.select status req w).0 ≢ panic m
  pub sequence :
      (r : Router W) (req : Request) (status : List ProviderStatus) (w : W) (m : String)
      → sch.router ≡ some r
      → (r.select_sequence status req w).0 ≢ panic m

if-false : {A : Type 0} (c : Bool) (x y : A) → c ≡ false → (if c then x else y) ≡ y
if-false true x y e = absurd (cc e)
if-false false x y e = refl

enqueue-closed : (r : CallRecord) (h : History) → (enqueue r h).closed ≡ h.closed
unfolding enqueue
enqueue-closed r h = same (ltb (length h.queue) queue_cap)
  where
    same : (b : Bool) → (if b then record h { queue = h.queue ++ r ∷ [] } else h).closed ≡ h.closed
    same true = refl
    same false = refl

persist-open :
    (o : Option Storage) (r : CallRecord) (h : History)
    → h.closed ≡ false
    → ((persist o r h).0 ≡ ok tt) × ((persist o r h).1.closed ≡ false)
unfolding offer
persist-open none r h e = (refl, e)
persist-open (some s) r h e =
    let sent =
      if-false {A = Outcome (Unit {0}) × History} h.closed (panic "send on closed channel", h)
        (ok tt, enqueue r h) e in
    (ap (λ p. p.0) sent, ap (λ p. p.1.closed) sent ∙ enqueue-closed r h ∙ e)

record_call-open :
    (r : CallRecord) (h : History)
    → h.closed ≡ false
    → ((record_call r h).0 ≡ ok tt) × ((record_call r h).1.closed ≡ false)
unfolding record_call
record_call-open r h e = persist-open h.storage r _ e

pub calm : {P : Type 0} (o : Outcome (Unit {0})) (m : String) → o ≡ ok tt → o ≡ panic m → P
calm (ok u) m h k = absurd (cc k)
calm (err e) m h k = absurd (cc k)
calm (panic r) m h k = absurd (cc h)

module _ {W : Type 0} (sch : Scheduler W) where
  pub record_in-open :
      (o : Option History) (r : ℕ → CallRecord) (s : State W)
      → Recording o
      → s.history ≡ o
      → ((record_in o sch r s).0 ≡ ok tt) × Recording (record_in o sch r s).1.history
  record_in-open none r s h e = (refl, rw e tt)
  record_in-open (some h) r s k e = record_call-open (r (s.req_id + 1)) h k

  on_provider-Returns :
      (p : Provider W) (req : Request) (tags : List String) (s : State W)
      → Recording s.history
      → Returns (on_provider sch p req tags s)
  unfolding on_provider record_history
  on_provider-Returns p req tags s h =
      settle-cases Returns _ _ _
        (record { reply = _; gives = refl; recording = (record_in-open s.history _ _ h refl).1 })
        (λ r e. calm _ r (record_in-open s.history _ _ h refl).0 e)

  with_provider-Returns :
      (p : Provider W) (req : Request) (s : State W)
      → Recording s.history
      → Returns (with_provider sch p req s)
  unfolding with_provider
  with_provider-Returns p req s h =
      unless_error-cases Returns _ _ _ (λ e k. record { reply = _; gives = refl; recording = h })
        (λ k. on_provider-Returns p _ req.tags s h)

  Picked-panic :
      (req : Request) (w : W) (o : Outcome ℕ) (m : String)
      → Quiet sch
      → o ≡ panic m
      → Picked sch req w o
      → ⊥
  Picked-panic req w (ok i) m q e h = cc e
  Picked-panic req w (err x) m q e h = cc e
  Picked-panic req w (panic r) m q e h = q.select h.0 req _ w r h.1 h.2

  Picked-none :
      (req : Request) (w : W) (o : Outcome ℕ) (i : ℕ)
      → o ≡ ok i
      → Picked sch req w o
      → get_elem? sch.providers i ≢ none
  Picked-none req w (ok j) i e h none_at =
      let same : j ≡ i = ap (λ o. elim o as (λ _. ℕ) [ ok k ↦ k | err _ ↦ 0 | panic _ ↦ 0 ]) e in
      absurd (cc (h.1, same, none_at))
  Picked-none req w (err x) i e h none_at = absurd (cc e)
  Picked-none req w (panic r) i e h none_at = absurd (cc e)

  with_slot-Returns :
      (req : Request) (s : State W)
      → Quiet sch
      → Recording s.history
      → Returns (with_slot sch req s)
  unfolding with_slot
  with_slot-Returns req s q h =
      let picked = pick_with_router-Picked sch req s.world in
      when_picked-cases Returns _ _ _ (λ e. record { reply = _; gives = refl; recording = h })
        (λ r e. absurd (Picked-panic req s.world _ r q e picked))
        (λ i k.
          at_index-cases Returns _ _ _ (λ e. absurd (Picked-none req s.world _ i k picked e))
            (λ p. with_provider-Returns p req _ h))

  pub acquired-Recording :
      (o : Option Error) (s : State W) → Recording s.history → Recording (acquired o s).history
  acquired-Recording none s h = h
  acquired-Recording (some e) s h = h

  -- Unless its router panics, and while the history is not closed, ChatComplete returns, though the
  -- provider or any hook panic, and leaves the history open.
  pub chat_complete-Returns :
      (req : Request) (s : State W)
      → Quiet sch
      → Recording s.history
      → Returns (chat_complete sch req s)
  unfolding chat_complete acquire released release
  chat_complete-Returns req s q h =
      unless_error-cases Returns _ _ _ (λ e k. record { reply = _; gives = refl; recording = h })
        (λ k.
          unless_error-cases Returns _ _ _
            (λ e k. record { reply = _; gives = refl; recording = acquired-Recording _ _ h })
            (λ k.
              let done = with_slot-Returns req _ q (acquired-Recording _ _ h) in
              record { reply = done.reply; gives = done.gives; recording = done.recording }))

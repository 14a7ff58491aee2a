-- ===== src/Engine/Scheduler/Complete.antt =====
-- internal/engine/scheduler.go: ChatComplete and ChatCompleteWithRouter.
use ao_eo.Base.{ℕ, String, List, get_elem?, Option, none, some, Outcome, ok, err, panic, Error}
use ao_eo.Core.Types.{Request, Response}
use ao_eo.Core.Interceptor.{Reply, Returned, values, panicked, apply_before, apply_after}
use ao_eo.Engine.Scheduler.{
  Provider, Router, Scheduler, State, Called, failure, check_closed, pick_with_router, acquire,
  release, request_for, call_with_retry, recovered, record_history,
}

-- What a call gives its caller, and the state it leaves
abbrev pub Result : Type 0 → Type 0
Result W = Returned (Reply Response) × State W

module _ {W : Type 0} where
  abbrev pub reply_of : Called W → Reply Response
  reply_of c = record { resp = c.resp; error = recovered c.outcome }

  -- if err != nil { return nil, err }
  unfoldable pub unless_error : Option Error → State W → Result W → Result W
  unless_error (some e) s rest = (values (failure e), s)
  unless_error none s rest = rest

  -- A panic of Record goes on; or else the call returns.
  unfoldable pub settle : Outcome (Unit {0}) → Reply Response → State W → Result W
  settle (panic r) reply s = (panicked r, s)
  settle (ok u) reply s = (values reply, s)
  settle (err e) reply s = (values reply, s)

  -- s.providers[i]
  unfoldable pub at_index : Option (Provider W) → State W → (Provider W → Result W) → Result W
  at_index none s rest = (panicked "index out of range", s)
  at_index (some p) s rest = rest p

  unfoldable pub when_picked : Outcome ℕ → State W → (ℕ → Result W) → Result W
  when_picked (ok i) s rest = rest i
  when_picked (err e) s rest = (values (failure e), s)
  when_picked (panic r) s rest = (panicked r, s)

  -- The call and its deferred function: recover, record, run the hooks
  unfoldable pub on_provider : Scheduler W → Provider W → Request → List String → State W → Result W
  unfolding call_with_retry record_history
  on_provider sch p req tags s =
      let called = call_with_retry sch p req s.world in
      let recorded =
        record_history sch p req (reply_of called) (sch.now_ms s.world) tags ""
          (record s { world = called.world }) in
      settle recorded.0 (apply_after sch.chain req (reply_of called)) recorded.1

  unfoldable pub with_provider : Scheduler W → Provider W → Request → State W → Result W
  unfolding on_provider request_for
  with_provider sch p req s =
      let before = apply_before sch.chain (request_for sch p req) in
      unless_error before.0 s (on_provider sch p before.1 req.tags s)

  -- What happens while the slot is held
  unfoldable pub with_slot : Scheduler W → Request → State W → Result W
  unfolding with_provider pick_with_router
  with_slot sch req s =
      let picked = pick_with_router sch req s.world in
      let s' = record s { world = picked.1 } in
      when_picked picked.0 s'
        (λ i. at_index (get_elem? sch.providers i) s' (λ p. with_provider sch p req s'))

  -- The deferred Release runs whatever happens in between.
  unfoldable pub released : Result W → Result W
  unfolding release
  released done = (done.0, release done.1)

  -- ChatComplete
  unfoldable pub chat_complete : Scheduler W → Request → State W → Result W
  unfolding with_slot check_closed acquire released
  chat_complete sch req s =
      let acquired = acquire sch s in
      unless_error (check_closed sch) s
        (unless_error acquired.0 acquired.1 (released (with_slot sch req acquired.1)))

  -- ChatCompleteWithRouter: as ChatComplete, with the router given
  unfoldable pub chat_complete_with_router : Scheduler W → Router W → Request → State W → Result W
  unfolding chat_complete
  chat_complete_with_router sch r req s = chat_complete (record sch { router = some r }) req s

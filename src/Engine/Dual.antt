-- ===== src/Engine/Dual.antt =====
-- internal/engine/scheduler.go: ChatCompleteDual. The two calls run at once: which of them reaches the
-- world first is a parameter.
pub mod Holding
pub mod Alone
mod Tests
use ao_eo.Base.{
  ℕ, zero, suc, ◌+◌, ◌-◌, ◌*◌, String, Bool, true, false, List, [], ◌∷◌, ◌++◌, length, Option, none,
  some, Outcome, ok, err, panic, Error, no_available_provider, both_failed, str_eq, ltb, ℤ,
  if◌then◌else◌,
}
use ao_eo.Core.Types.{Request, Response, Choice}
use ao_eo.Core.Interceptor.{Reply, Returned, values, panicked, apply_before}
use ao_eo.Engine.Scheduler.{
  Provider, Router, Scheduler, State, Called, check_closed, provider_status, request_for,
  record_history,
}
use ao_eo.Engine.Scheduler.Complete.{Result, reply_of, chat_complete}
use ao_eo.Engine.Scheduler.Fallback.{available_providers, in_range}
use ao_eo.Engine.Audit.{Words, consensus_of, pick_round_robin, pick_other, call_once_on}

pub record DualResult : Type 0 where
  pub result1 : Option Response
  pub result2 : Option Response
  pub consensus : Bool

-- What ChatCompleteDual returns, with the counter of the round robin and the state after it
abbrev pub Dualed : Type 0 → Type 0
Dualed W = Outcome DualResult × (ℕ × State W)

-- The two providers of the router's sequence: the first, and the first of another name
abbrev pub Pair : Type 0 → Type 0
Pair W = Option (Provider W) × Option (Provider W)

abbrev has_choices : Response → Bool
has_choices r = ltb 0 (length r.choices)

-- dual.Consensus
unfoldable pub agreement : Words → Option Response → Option Response → Bool
unfolding consensus_of
agreement ws none r2 = false
agreement ws (some r1) none = false
agreement ws (some r1) (some r2) =
    if has_choices r1
    then if has_choices r2 then consensus_of ws (some r1) (some r2) else false
    else false

module _ {W : Type 0} where
  unfoldable pub other_of : String → List (Provider W) → Option (Provider W)
  other_of name [] = none
  other_of name (p ∷ ps) =
      let rest = other_of name ps in if str_eq p.config.name name then rest else some p

  unfoldable pub pair_of : List (Provider W) → Pair W
  unfolding other_of
  pair_of [] = (none, none)
  pair_of (p ∷ ps) = (some p, other_of p.config.name ps)

  -- A sequence of two indices or more counts.
  abbrev pub pair_in : List (Provider W) → Outcome (List ℤ) → Outcome (Pair W)
  pair_in ps (ok seq) = ok (if ltb (length seq) 2 then (none, none) else pair_of (in_range ps seq))
  pair_in ps (err e) = ok (none, none)
  pair_in ps (panic r) = panic r

  -- A call that comes back with a reply
  abbrev pub alone : Result W → ℕ → Dualed W
  alone (values reply, s) rr = elim reply.error [
    | some e ↦ (err e, (rr, s))
    | none ↦ (ok (record { result1 = reply.resp; result2 = none; consensus = true }), (rr, s))
  ]
  alone (panicked r, s) rr = (panic r, (rr, s))

module _ {W : Type 0} (ws : Words) (sch : Scheduler W) (await_two : W → Option Error × W)
    (one_first : Bool) where
  abbrev pub unless_err : Option Error → ℕ × State W → Dualed W → Dualed W
  unless_err (some e) after rest = (err e, after)
  unless_err none after rest = rest

  -- fmt.Sprint of an error
  abbrev pub text_of : Option Error → String
  text_of none = "<nil>"
  text_of (some e) = sch.error_text e

  -- The choice by the router
  unfoldable pub routed_pair : Option (Router W) → Request → W → Outcome (Pair W) × W
  unfolding pair_of in_range provider_status
  routed_pair none req w = (ok (none, none), w)
  routed_pair (some r) req w =
      let answered = r.select_sequence (provider_status sch w) req w in
      (pair_in sch.providers answered.0, answered.1)

  -- The two calls, in the order in which they reach the world
  unfoldable pub call_both :
      Provider W → Provider W → Request → Request → W → Called W × (Called W × W)
  unfolding call_once_on
  call_both p1 p2 req1 req2 w = elim one_first [
    | true ↦
        let c1 = call_once_on ws sch p1 req1 w in
        let c2 = call_once_on ws sch p2 req2 c1.world in (c1, (c2, c2.world))
    | false ↦
        let c2 = call_once_on ws sch p2 req2 w in
        let c1 = call_once_on ws sch p1 req1 c2.world in (c1, (c2, c1.world))
  ]

  -- The end: an error where there is no response at all
  unfoldable pub joint : Reply Response → Reply Response → Outcome DualResult
  unfolding agreement
  joint r1 r2 = elim r1.resp [
    | some a ↦
        ok (record {
          result1 = some a;
          result2 = r2.resp;
          consensus = agreement ws (some a) r2.resp;
        })
    | none ↦ elim r2.resp [
      | some b ↦ ok (record { result1 = none; result2 = some b; consensus = false })
      | none ↦ err (both_failed (text_of r1.error) (text_of r2.error))
    ]
  ]

  -- A panic of Record goes on.
  abbrev pub after_record : Outcome (Unit {0}) × State W → ℕ → (State W → Dualed W) → Dualed W
  after_record (panic r, s) rr rest = (panic r, (rr, s))
  after_record (ok u, s) rr rest = rest s
  after_record (err e, s) rr rest = rest s

  unfoldable pub record_dual :
      Provider W → Request → Reply Response → ℕ → State W → Outcome (Unit {0}) × State W
  unfolding record_history
  record_dual p req reply start s =
      record_history sch p (request_for sch p req) reply start (req.tags ++ "dual" ∷ []) "" s

  -- The calls and their records, with both slots taken
  unfoldable pub with_both : Provider W → Provider W → Request → ℕ → State W → Dualed W
  unfolding call_both joint record_dual
  with_both p1 p2 req rr s =
      let start = sch.now_ms s.world in
      let (c1, (c2, w)) =
        call_both p1 p2 (request_for sch p1 req) (request_for sch p2 req) s.world in
      after_record (record_dual p1 req (reply_of c1) start (record s { world = w })) rr (λ s'.
        after_record (record_dual p2 req (reply_of c2) start s') rr
          (λ s''. (joint (reply_of c1) (reply_of c2), (rr, s''))))

  -- The deferred ReleaseN runs whatever happens in between.
  unfoldable pub release_both : Dualed W → Dualed W
  release_both (result, (rr, s)) = (result, (rr, record s { held = s.held - 2 }))

  abbrev pub took_two : Option Error → State W → State W
  took_two none s = record s { held = s.held + 2 }
  took_two (some e) s = s

  unfoldable pub with_second : Option (Provider W) → Provider W → Request → ℕ → State W → Dualed W
  unfolding with_both release_both chat_complete
  with_second none p1 req rr s = alone (chat_complete sch req s) rr
  with_second (some p2) p1 req rr s =
      let waited = await_two s.world in
      let s' = took_two waited.0 (record s { world = waited.1 }) in
      unless_err waited.0 (rr, s') (release_both (with_both p1 p2 req rr s'))

  unfoldable pub with_first :
      Option (Provider W) → Option (Provider W) → ℕ → Request → ℕ → State W → Dualed W
  unfolding with_second pick_other
  with_first none second n req rr s = (err no_available_provider, (rr, s))
  with_first (some p1) (some p2) n req rr s = with_second (some p2) p1 req rr s
  with_first (some p1) none n req rr s =
      let other = pick_other ws sch p1.config.name (n * 2) rr s in
      with_second other.0 p1 req other.1.0 other.1.1

  unfoldable pub with_pair : Outcome (Pair W) → ℕ → Request → ℕ → State W → Dualed W
  unfolding with_first pick_round_robin
  with_pair (panic r) n req rr s = (panic r, (rr, s))
  with_pair (err e) n req rr s = (err e, (rr, s))
  with_pair (ok (some p1, second)) n req rr s = with_first (some p1) second n req rr s
  with_pair (ok (none, second)) n req rr s =
      let first = pick_round_robin ws sch rr s in
      with_first first.0 second n req first.1.0 first.1.1

  unfoldable pub over_some : List (Provider W) → Request → ℕ → State W → Dualed W
  unfolding with_pair routed_pair
  over_some [] req rr s = (err no_available_provider, (rr, s))
  over_some (p ∷ ps) req rr s =
      let before = apply_before sch.chain req in
      let pair = routed_pair sch.router before.1 s.world in
      unless_err before.0 (rr, s)
        (with_pair pair.0 (length (p ∷ ps)) before.1 rr (record s { world = pair.1 }))

  -- ChatCompleteDual
  unfoldable pub chat_complete_dual : Request → ℕ → State W → Dualed W
  unfolding over_some check_closed available_providers
  chat_complete_dual req rr s =
      let available = available_providers sch s in
      unless_err (check_closed sch) (rr, s) (over_some available.0 req rr available.1)

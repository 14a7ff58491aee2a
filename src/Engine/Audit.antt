-- ===== src/Engine/Audit.antt =====
-- internal/engine/audit.go: Audit, with PickProviderRoundRobin of internal/engine/scheduler.go, and
-- MergeChoices and Consensus of internal/engine/result.go. `Words` are the functions of package
-- strings that depend on the tables of Unicode.
pub mod Holding
pub mod Others
mod Tests
use ao_eo.Base.{
  ℕ, zero, suc, ◌+◌, ◌-◌, ◌*◌, ◌%◌, ◌^◌, String, Bool, true, false, not, List, [], ◌∷◌, ◌++◌,
  length, get_elem?, Option, none, some, Outcome, ok, err, panic, Error, no_available_provider,
  primary_failed, too_few_providers, str_eq, append, if◌then◌else◌,
}
use ao_eo.Core.Types.{Request, Response, Choice, Message, content_of}
use ao_eo.Core.Router.{add_one}
use ao_eo.Core.Interceptor.{Reply}
use ao_eo.Engine.Scheduler.{
  Provider, Scheduler, State, Called, check_closed, acquire, release, request_for, call_provider,
  recovered, record_history,
}
use ao_eo.Engine.Scheduler.Complete.{reply_of}
use ao_eo.Engine.Scheduler.Fallback.{available_providers}
use ao_eo.Engine.Stream.{no_message}

-- strings.TrimSpace, ToLower and Fields
pub record Words : Type 0 where
  pub trim_space : String → String
  pub to_lower : String → String
  pub fields : String → List String

pub record AuditResult : Type 0 where
  pub primary : Option Response
  pub audit : Option Response
  pub consensus : Bool
  pub adjusted : Option Response

-- strings.Join(fields, " ")
unfoldable pub joined : List String → String
joined [] = ""
joined (s ∷ []) = s
joined (s ∷ t ∷ ts) = append s (append " " (joined (t ∷ ts)))

unfoldable pub normalize_content : Words → String → String
unfolding joined
normalize_content ws s = joined (ws.fields (ws.to_lower (ws.trim_space s)))

-- Consensus
unfoldable pub consensus_of : Words → Option Response → Option Response → Bool
unfolding normalize_content
consensus_of ws none r2 = false
consensus_of ws (some r1) none = false
consensus_of ws (some r1) (some r2) =
    str_eq (normalize_content ws (content_of (some r1)))
      (normalize_content ws (content_of (some r2)))

unfoldable pub combined : String → String → String
combined a b = append "[Provider 1]\n" (append a (append "\n\n[Provider 2]\n" b))

-- The choices of the merged response
unfoldable pub merged_choices : Response → Response → Bool → List Choice
unfolding combined
merged_choices r1 r2 true = r1.choices
merged_choices r1 r2 false =
    record {
      index = 0;
      message = record no_message {
        role = "assistant";
        content = combined (content_of (some r1)) (content_of (some r2));
      };
      finish_reason = "stop";
    }
    ∷ []

-- MergeChoices
unfoldable pub merge_choices : Option Response → Option Response → Bool → Option Response
unfolding merged_choices
merge_choices none r2 agree = r2
merge_choices (some r1) none agree = some r1
merge_choices (some r1) (some r2) agree = some (record {
  id = r1.id;
  model = r1.model;
  choices = merged_choices r1 r2 agree;
  usage = record {
    prompt_tokens = r1.usage.prompt_tokens + r2.usage.prompt_tokens;
    completion_tokens = r1.usage.completion_tokens + r2.usage.completion_tokens;
    total_tokens = r1.usage.total_tokens + r2.usage.total_tokens;
  };
  created_at = 0;
})

-- The result without its second response, and with it: the warning of a disagreement reads the model
-- of the primary response, which may be nil.
unfoldable pub audited : Words → Option Response → Option Response → Outcome AuditResult
unfolding consensus_of merge_choices
audited ws primary none =
    ok (record { primary = primary; audit = none; consensus = true; adjusted = primary })
audited ws none (some r) = panic "nil pointer dereference"
audited ws (some p) (some r) =
    let agree = consensus_of ws (some p) (some r) in
    ok (record {
      primary = some p;
      audit = some r;
      consensus = agree;
      adjusted = merge_choices (some p) (some r) agree;
    })

-- What Audit returns, with the counter of the round robin and the state after it
abbrev pub Audited : Type 0 → Type 0
Audited W = Outcome AuditResult × (ℕ × State W)

module _ {W : Type 0} (ws : Words) (sch : Scheduler W) where
  abbrev pub picked : List (Provider W) → ℕ → State W → Option (Provider W) × (ℕ × State W)
  picked [] rr s = (none, (rr, s))
  picked (p ∷ ps) rr s =
      (get_elem? (p ∷ ps) ((add_one rr + (2 ^ 64 - 1)) % 2 ^ 64 % length (p ∷ ps)), (add_one rr, s))

  -- PickProviderRoundRobin
  unfoldable pub pick_round_robin : ℕ → State W → Option (Provider W) × (ℕ × State W)
  unfolding available_providers
  pick_round_robin rr s =
      let available = available_providers sch s in picked available.0 rr available.1

  abbrev pub unless_same :
      String
      → Option (Provider W) × (ℕ × State W)
      → Option (Provider W) × (ℕ × State W)
      → Option (Provider W) × (ℕ × State W)
  unless_same name (none, after) rest = rest
  unless_same name (some p, after) rest =
      if str_eq p.config.name name then rest else (some p, after)

  -- The attempts to find a provider of another name
  unfoldable pub pick_other : String → ℕ → ℕ → State W → Option (Provider W) × (ℕ × State W)
  unfolding pick_round_robin
  pick_other name zero rr s = (none, (rr, s))
  pick_other name (suc attempts) rr s =
      let candidate = pick_round_robin rr s in
      unless_same name candidate (pick_other name attempts candidate.1.0 candidate.1.1)

  -- The call of a provider under its recover, without retries
  unfoldable pub call_once_on : Provider W → Request → W → Called W
  unfolding call_provider
  call_once_on p req w =
      let done = call_provider p req (none, w) in
      record { resp = done.1.0; outcome = done.0; world = done.1.1 }

  abbrev pub unless_err : Option Error → ℕ × State W → Audited W → Audited W
  unless_err (some e) after rest = (err e, after)
  unless_err none after rest = rest

  -- A panic of Record goes on.
  abbrev pub after_record : Outcome (Unit {0}) × State W → ℕ → (State W → Audited W) → Audited W
  after_record (panic r, s) rr rest = (panic r, (rr, s))
  after_record (_, s) rr rest = rest s

  -- The result, and then the records, of which the second is written for the audit provider
  abbrev pub recorded :
      Outcome AuditResult
      → ℕ
      → State W
      → (State W → Outcome (Unit {0}) × State W)
      → (State W → Outcome (Unit {0}) × State W)
      → Audited W
  recorded (panic r) rr s first second = (panic r, (rr, s))
  recorded result rr s first second =
      after_record (first s) rr (λ s'. after_record (second s') rr (λ s''. (result, (rr, s''))))

  -- The record of the primary call
  unfoldable pub record_primary :
      Provider W → Request → Option Response → ℕ → State W → Outcome (Unit {0}) × State W
  unfolding record_history
  record_primary p req resp start s =
      record_history sch p (request_for sch p req) (record { resp = resp; error = none }) start
        (req.tags ++ "audit" ∷ []) "" s

  -- The audit provider's turn, with the slot taken
  unfoldable pub with_audit :
      Provider W → Provider W → Request → Option Response → ℕ → ℕ → State W → Audited W
  unfolding call_once_on release audited record_primary
  with_audit p q req primary start rr s =
      let called = call_once_on q (request_for sch q req) s.world in
      recorded (audited ws primary called.resp) rr (release (record s { world = called.world }))
        (record_primary p req primary start)
        (record_history sch q (request_for sch q req) (reply_of called) start
          (req.tags ++ "audit" ∷ []) "")

  unfoldable pub with_other :
      Option (Provider W) → Provider W → Request → Option Response → ℕ → ℕ → State W → Audited W
  unfolding with_audit acquire
  with_other none p req primary start rr s =
      recorded (audited ws primary none) rr s (record_primary p req primary start)
        (λ s'. (ok tt, s'))
  with_other (some q) p req primary start rr s =
      let acquired = acquire sch s in
      unless_err acquired.0 (rr, acquired.1) (with_audit p q req primary start rr acquired.1)

  abbrev pub after_primary :
      Option Error → Provider W → ℕ → Request → Option Response → ℕ → ℕ → State W → Audited W
  after_primary (some e) p n req primary start rr s = (err (primary_failed e), (rr, s))
  after_primary none p n req primary start rr s =
      let other = pick_other p.config.name (n * 2) rr s in
      with_other other.0 p req primary start other.1.0 other.1.1

  -- The primary provider's turn, with the slot taken
  unfoldable pub on_primary : Provider W → ℕ → Request → ℕ → ℕ → State W → Audited W
  unfolding pick_other with_other call_once_on release
  on_primary p n req start rr s =
      let called = call_once_on p (request_for sch p req) s.world in
      after_primary (recovered called.outcome) p n req called.resp start rr
        (release (record s { world = called.world }))

  unfoldable pub over_two : List (Provider W) → Request → ℕ → State W → Audited W
  unfolding on_primary acquire
  over_two [] req rr s = (err no_available_provider, (rr, s))
  over_two (p ∷ []) req rr s = (err (too_few_providers 1), (rr, s))
  over_two (p ∷ q ∷ ps) req rr s =
      let acquired = acquire sch s in
      unless_err acquired.0 (rr, acquired.1)
        (on_primary p (length (p ∷ q ∷ ps)) req (sch.now_ms s.world) rr acquired.1)

  -- Audit
  unfoldable pub audit : Request → ℕ → State W → Audited W
  unfolding over_two check_closed available_providers
  audit req rr s =
      let available = available_providers sch s in
      unless_err (check_closed sch) (rr, s) (over_two available.0 req rr available.1)

-- ===== src/Engine/Audit/Holding.antt =====
-- internal/engine/audit.go: the slots of an audit.
use ao_eo.Base.{
  ℕ, zero, suc, ◌+◌, ◌-◌, ◌*◌, ◌≡◌, refl, ap, ◌∙◌, List, [], ◌∷◌, ◌++◌, String, Option, none, some,
  Error, Outcome, ok, err, panic, arith, inl, inr, str_eq, Bool-cases,
}
use ao_eo.Core.Types.{Request, Response}
use ao_eo.Engine.Scheduler.{
  Provider, Scheduler, State, acquire, release, check_closed, recovered, request_for,
  record_history,
}
use ao_eo.Engine.Scheduler.Complete.{reply_of}
use ao_eo.Engine.Scheduler.Slots.{acquire-held, acquire-failed, available-held, record_history-held}
use ao_eo.Engine.Audit.{
  Words, AuditResult, Audited, audited, picked, pick_round_robin, unless_same, pick_other,
  unless_err, after_record, recorded, record_primary, with_audit, call_once_on, with_other,
  after_primary, on_primary, over_two, audit,
}

-- An audit that ends with `n` slots held
record Keeps {W : Type 0} (n : ℕ) (r : Audited W) : Type 0 where
  held : r.1.1.held ≡ n

module _ {W : Type 0} (ws : Words) (sch : Scheduler W) (n : ℕ) where
  unless_err-Keeps :
      (e : Option Error) (rr : ℕ) (s : State W) (rest : Audited W)
      → ((x : Error) → e ≡ some x → s.held ≡ n)
      → (e ≡ none → Keeps n rest)
      → Keeps n (unless_err ws sch e (rr, s) rest)
  unless_err-Keeps none rr s rest h k = k refl
  unless_err-Keeps (some x) rr s rest h k = record { held = h x refl }

  acquired-Keeps :
      (rr : ℕ) (s : State W) (rest : Audited W)
      → s.held ≡ n
      → ((acquire sch s).1.held ≡ n + 1 → Keeps n rest)
      → Keeps n (unless_err ws sch (acquire sch s).0 (rr, (acquire sch s).1) rest)
  acquired-Keeps rr s rest h k =
      unless_err-Keeps _ rr _ rest (λ x e. acquire-failed sch s x e ∙ h)
        (λ e. k (acquire-held sch s e ∙ ap (λ m. m + 1) h))

  after_record-Keeps :
      (r : Outcome (Unit {0}) × State W) (rr : ℕ) (rest : State W → Audited W)
      → r.1.held ≡ n
      → ((s : State W) → s.held ≡ n → Keeps n (rest s))
      → Keeps n (after_record ws sch r rr rest)
  after_record-Keeps (panic m, s) rr rest h k = record { held = h }
  after_record-Keeps (ok u, s) rr rest h k = k s h
  after_record-Keeps (err e, s) rr rest h k = k s h

  abbrev Quiet : (State W → Outcome (Unit {0}) × State W) → Type 0
  Quiet f = (s : State W) → s.held ≡ n → (f s).1.held ≡ n

  both-Keeps :
      (o : Outcome AuditResult) (rr : ℕ) (s : State W)
      (first second : State W → Outcome (Unit {0}) × State W)
      → s.held ≡ n
      → Quiet first
      → Quiet second
      → Keeps n (
          after_record ws sch
            (first s)
            rr
            (λ s'. after_record ws sch (second s') rr (λ s''. (o, (rr, s'')))))
  both-Keeps o rr s first second h f g =
      after_record-Keeps (first s) rr
        (λ s'. after_record ws sch (second s') rr (λ s''. (o, (rr, s'')))) (f s h)
        (λ s' h'.
          after_record-Keeps (second s') rr (λ s''. (o, (rr, s''))) (g s' h')
            (λ s'' h''. record { held = h'' }))

  recorded-Keeps :
      (o : Outcome AuditResult) (rr : ℕ) (s : State W)
      (first second : State W → Outcome (Unit {0}) × State W)
      → s.held ≡ n
      → Quiet first
      → Quiet second
      → Keeps n (recorded ws sch o rr s first second)
  recorded-Keeps (panic r) rr s first second h f g = record { held = h }
  recorded-Keeps (ok r) rr s first second h f g = both-Keeps (ok r) rr s first second h f g
  recorded-Keeps (err e) rr s first second h f g = both-Keeps (err e) rr s first second h f g

  record_primary-Quiet :
      (p : Provider W) (req : Request) (resp : Option Response) (start : ℕ)
      → Quiet (record_primary ws sch p req resp start)
  unfolding record_primary
  record_primary-Quiet p req resp start s h =
      record_history-held sch p (request_for sch p req) (record { resp = resp; error = none }) start
        (req.tags ++ "audit" ∷ []) "" s
      ∙ h

  with_audit-Keeps :
      (p q : Provider W) (req : Request) (primary : Option Response) (start rr : ℕ) (s : State W)
      → s.held ≡ n + 1
      → Keeps n (with_audit ws sch p q req primary start rr s)
  unfolding with_audit release
  with_audit-Keeps p q req primary start rr s h =
      let sent = request_for sch q req in
      let called = call_once_on ws sch q sent s.world in
      let after : State W = release (record s { world = called.world }) in
      recorded-Keeps (audited ws primary called.resp) rr after
        (record_primary ws sch p req primary start)
        (record_history sch q sent (reply_of called) start (req.tags ++ "audit" ∷ []) "")
        (ap (λ m. m - 1) h ∙ omega arith) (record_primary-Quiet p req primary start)
        (λ s' h'.
          record_history-held sch q sent (reply_of called) start (req.tags ++ "audit" ∷ []) "" s'
          ∙ h')

  with_other-Keeps :
      (o : Option (Provider W)) (p : Provider W) (req : Request) (primary : Option Response)
      (start rr : ℕ) (s : State W)
      → s.held ≡ n
      → Keeps n (with_other ws sch o p req primary start rr s)
  unfolding with_other
  with_other-Keeps none p req primary start rr s h =
      recorded-Keeps (audited ws primary none) rr s (record_primary ws sch p req primary start)
        (λ s'. (ok tt, s')) h (record_primary-Quiet p req primary start) (λ s' k. k)
  with_other-Keeps (some q) p req primary start rr s h =
      acquired-Keeps rr s _ h (λ k. with_audit-Keeps p q req primary start rr _ k)

  unless_same-held :
      (name : String) (c rest : Option (Provider W) × (ℕ × State W)) (m : ℕ)
      → c.1.1.held ≡ m
      → rest.1.1.held ≡ m
      → (unless_same ws sch name c rest).1.1.held ≡ m
  unless_same-held name (none, after) rest m h k = k
  unless_same-held name (some p, after) rest m h k = elim (Bool-cases (str_eq p.config.name name)) [
    | inl e ↦ rw e k
    | inr e ↦ rw e h
  ]

  picked-held :
      (ps : List (Provider W)) (rr : ℕ) (s : State W) → (picked ws sch ps rr s).1.1.held ≡ s.held
  picked-held [] rr s = refl
  picked-held (p ∷ ps) rr s = refl

  pub pick_round_robin-held :
      (rr : ℕ) (s : State W) → (pick_round_robin ws sch rr s).1.1.held ≡ s.held
  unfolding pick_round_robin
  pick_round_robin-held rr s = picked-held _ rr _ ∙ available-held sch s

  pub pick_other-held :
      (name : String) (attempts rr : ℕ) (s : State W)
      → (pick_other ws sch name attempts rr s).1.1.held ≡ s.held
  unfolding pick_other
  pick_other-held name zero rr s = refl
  pick_other-held name (suc attempts) rr s =
      let here = pick_round_robin-held rr s in
      unless_same-held name (pick_round_robin ws sch rr s) _ s.held here
        (pick_other-held name attempts _ _ ∙ here)

  after_primary-Keeps :
      (e : Option Error) (p : Provider W) (m : ℕ) (req : Request) (primary : Option Response)
      (start rr : ℕ) (s : State W)
      → s.held ≡ n
      → Keeps n (after_primary ws sch e p m req primary start rr s)
  after_primary-Keeps (some e) p m req primary start rr s h = record { held = h }
  after_primary-Keeps none p m req primary start rr s h =
      with_other-Keeps _ p req primary start _ _ (pick_other-held p.config.name (m * 2) rr s ∙ h)

  on_primary-Keeps :
      (p : Provider W) (m : ℕ) (req : Request) (start rr : ℕ) (s : State W)
      → s.held ≡ n + 1
      → Keeps n (on_primary ws sch p m req start rr s)
  unfolding on_primary release
  on_primary-Keeps p m req start rr s h =
      let called = call_once_on ws sch p (request_for sch p req) s.world in
      let after : State W = release (record s { world = called.world }) in
      after_primary-Keeps (recovered called.outcome) p m req called.resp start rr after
        (ap (λ k. k - 1) h ∙ omega arith)

  over_two-Keeps :
      (ps : List (Provider W)) (req : Request) (rr : ℕ) (s : State W)
      → s.held ≡ n
      → Keeps n (over_two ws sch ps req rr s)
  unfolding over_two
  over_two-Keeps [] req rr s h = record { held = h }
  over_two-Keeps (p ∷ []) req rr s h = record { held = h }
  over_two-Keeps (p ∷ q ∷ ps) req rr s h =
      acquired-Keeps rr s _ h (λ k. on_primary-Keeps p _ req _ rr _ k)

-- Whichever way Audit ends, in a result, an error or a panic, after one call, two or none, the request
-- holds as many slots as before it.
pub audit-held :
    {W : Type 0} (ws : Words) (sch : Scheduler W) (req : Request) (rr : ℕ) (s : State W)
    → (audit ws sch req rr s).1.1.held ≡ s.held
unfolding audit
audit-held ws sch req rr s =
    (unless_err-Keeps ws sch s.held (check_closed sch) rr s _ (λ x e. refl)
      (λ e. over_two-Keeps ws sch s.held _ req rr _ (available-held sch s))).held

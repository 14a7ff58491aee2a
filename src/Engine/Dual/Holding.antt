-- ===== src/Engine/Dual/Holding.antt =====
-- internal/engine/scheduler.go: the slots of a dual call.
use ao_eo.Base.{
  ℕ, ◌+◌, ◌-◌, ◌*◌, ◌≡◌, refl, ap, ◌∙◌, Bool, List, [], ◌∷◌, ◌++◌, length, Option, none, some,
  Error, Outcome, ok, err, panic, arith, Option-cases, inl, inr,
}
use ao_eo.Core.Types.{Request, Response}
use ao_eo.Core.Interceptor.{Reply, values, panicked, apply_before}
use ao_eo.Engine.Scheduler.{Provider, Scheduler, State, check_closed, request_for}
use ao_eo.Engine.Scheduler.Complete.{Result, chat_complete, reply_of}
use ao_eo.Engine.Scheduler.Slots.{available-held, record_history-held, chat_complete-held}
use ao_eo.Engine.Audit.{Words}
use ao_eo.Engine.Audit.Holding.{pick_other-held, pick_round_robin-held}
use ao_eo.Engine.Dual.{
  Dualed, Pair, alone, unless_err, call_both, joint, after_record, record_dual, with_both,
  release_both, took_two, with_second, with_first, routed_pair, with_pair, over_some,
  chat_complete_dual,
}

-- A dual call that ends with `n` slots held
record Keeps {W : Type 0} (n : ℕ) (r : Dualed W) : Type 0 where
  held : r.1.1.held ≡ n

alone-Keeps : {W : Type 0} (n : ℕ) (r : Result W) (rr : ℕ) → r.1.held ≡ n → Keeps n (alone r rr)
alone-Keeps n (panicked m, s) rr h = record { held = h }
alone-Keeps n (values reply, s) rr h = elim (Option-cases reply.error) [
  | inl e ↦ record { held = rw (e, alone) h }
  | inr (x, e) ↦ record { held = rw (e, alone) h }
]

module _ {W : Type 0} (ws : Words) (sch : Scheduler W) (await_two : W → Option Error × W)
    (one_first : Bool) (n : ℕ) where
  unless_err-Keeps :
      (e : Option Error) (rr : ℕ) (s : State W) (rest : Dualed W)
      → ((x : Error) → e ≡ some x → s.held ≡ n)
      → (e ≡ none → Keeps n rest)
      → Keeps n (unless_err ws sch await_two one_first e (rr, s) rest)
  unless_err-Keeps none rr s rest h k = k refl
  unless_err-Keeps (some x) rr s rest h k = record { held = h x refl }

  after_record-Keeps :
      (m : ℕ) (r : Outcome (Unit {0}) × State W) (rr : ℕ) (rest : State W → Dualed W)
      → r.1.held ≡ m
      → ((s : State W) → s.held ≡ m → Keeps m (rest s))
      → Keeps m (after_record ws sch await_two one_first r rr rest)
  after_record-Keeps m (panic x, s) rr rest h k = record { held = h }
  after_record-Keeps m (ok u, s) rr rest h k = k s h
  after_record-Keeps m (err e, s) rr rest h k = k s h

  record_dual-held :
      (p : Provider W) (req : Request) (reply : Reply Response) (start : ℕ) (s : State W)
      → (record_dual ws sch await_two one_first p req reply start s).1.held ≡ s.held
  unfolding record_dual
  record_dual-held p req reply start s =
      record_history-held sch p (request_for sch p req) reply start (req.tags ++ "dual" ∷ []) "" s

  with_both-Keeps :
      (p1 p2 : Provider W) (req : Request) (rr : ℕ) (s : State W)
      → Keeps s.held (with_both ws sch await_two one_first p1 p2 req rr s)
  unfolding with_both
  with_both-Keeps p1 p2 req rr s =
      let start = sch.now_ms s.world in
      let both =
        call_both ws sch await_two one_first p1 p2 (request_for sch p1 req) (request_for sch p2 req)
          s.world in
      let r1 = reply_of both.0 in
      let r2 = reply_of both.1.0 in
      let called : State W = record s { world = both.1.1 } in
      let end : State W → Dualed W = λ s''. (joint ws sch await_two one_first r1 r2, (rr, s'')) in
      after_record-Keeps s.held (record_dual ws sch await_two one_first p1 req r1 start called) rr
        (λ s'.
          after_record ws sch await_two one_first
            (record_dual ws sch await_two one_first p2 req r2 start s') rr end)
        (record_dual-held p1 req r1 start called)
        (λ s' h.
          after_record-Keeps s.held (record_dual ws sch await_two one_first p2 req r2 start s') rr
            end (record_dual-held p2 req r2 start s' ∙ h) (λ s'' h'. record { held = h' }))

  released-Keeps :
      (d : Dualed W) → Keeps (n + 2) d → Keeps n (release_both ws sch await_two one_first d)
  unfolding release_both
  released-Keeps d k = record { held = ap (λ m. m - 2) k.held ∙ omega arith }

  took_two-held :
      (o : Option Error) (s : State W)
      → s.held ≡ n
      → o ≡ none
      → (took_two ws sch await_two one_first o s).held ≡ n + 2
  took_two-held none s h e = ap (λ m. m + 2) h
  took_two-held (some x) s h e = absurd (cc e)

  refused-held :
      (o : Option Error) (s : State W) (x : Error)
      → s.held ≡ n
      → o ≡ some x
      → (took_two ws sch await_two one_first o s).held ≡ n
  refused-held none s x h e = absurd (cc e)
  refused-held (some y) s x h e = h

  same-Keeps : (m : ℕ) (d : Dualed W) (k : ℕ) → m ≡ k → Keeps m d → Keeps k d
  same-Keeps m d k e h = record { held = h.held ∙ e }

  with_second-Keeps :
      (o : Option (Provider W)) (p1 : Provider W) (req : Request) (rr : ℕ) (s : State W)
      → s.held ≡ n
      → Keeps n (with_second ws sch await_two one_first o p1 req rr s)
  unfolding with_second
  with_second-Keeps none p1 req rr s h =
      alone-Keeps n (chat_complete sch req s) rr (chat_complete-held sch req s ∙ h)
  with_second-Keeps (some p2) p1 req rr s h =
      let waited = await_two s.world in
      let asked : State W = record s { world = waited.1 } in
      let taken = took_two ws sch await_two one_first waited.0 asked in
      unless_err-Keeps waited.0 rr taken _ (λ x e. refused-held waited.0 asked x h e)
        (λ e. released-Keeps (with_both ws sch await_two one_first p1 p2 req rr taken) (
          same-Keeps taken.held _ (n + 2) (took_two-held waited.0 asked h e)
            (with_both-Keeps p1 p2 req rr taken)))

  with_first-Keeps :
      (first second : Option (Provider W)) (m : ℕ) (req : Request) (rr : ℕ) (s : State W)
      → s.held ≡ n
      → Keeps n (with_first ws sch await_two one_first first second m req rr s)
  unfolding with_first
  with_first-Keeps none second m req rr s h = record { held = h }
  with_first-Keeps (some p1) (some p2) m req rr s h = with_second-Keeps (some p2) p1 req rr s h
  with_first-Keeps (some p1) none m req rr s h =
      with_second-Keeps _ p1 req _ _ (pick_other-held ws sch n p1.config.name (m * 2) rr s ∙ h)

  with_pair-Keeps :
      (o : Outcome (Pair W)) (m : ℕ) (req : Request) (rr : ℕ) (s : State W)
      → s.held ≡ n
      → Keeps n (with_pair ws sch await_two one_first o m req rr s)
  unfolding with_pair
  with_pair-Keeps (panic r) m req rr s h = record { held = h }
  with_pair-Keeps (err e) m req rr s h = record { held = h }
  with_pair-Keeps (ok (some p1, second)) m req rr s h =
      with_first-Keeps (some p1) second m req rr s h
  with_pair-Keeps (ok (none, second)) m req rr s h =
      with_first-Keeps _ second m req _ _ (pick_round_robin-held ws sch n rr s ∙ h)

  over_some-Keeps :
      (ps : List (Provider W)) (req : Request) (rr : ℕ) (s : State W)
      → s.held ≡ n
      → Keeps n (over_some ws sch await_two one_first ps req rr s)
  unfolding over_some
  over_some-Keeps [] req rr s h = record { held = h }
  over_some-Keeps (p ∷ ps) req rr s h =
      let before = apply_before sch.chain req in
      let pair = routed_pair ws sch await_two one_first sch.router before.1 s.world in
      let asked : State W = record s { world = pair.1 } in
      unless_err-Keeps before.0 rr s
        (with_pair ws sch await_two one_first pair.0 (length (p ∷ ps)) before.1 rr asked) (λ x e. h)
        (λ e. with_pair-Keeps pair.0 (length (p ∷ ps)) before.1 rr asked h)

-- Whichever way ChatCompleteDual ends, in a result, an error or a panic, with two providers, one or
-- none, and whichever of the two calls comes first, the request holds as many slots as before it.
pub chat_complete_dual-held :
    {W : Type 0} (ws : Words) (sch : Scheduler W) (await_two : W → Option Error × W)
    (one_first : Bool) (req : Request) (rr : ℕ) (s : State W)
    → (chat_complete_dual ws sch await_two one_first req rr s).1.1.held ≡ s.held
unfolding chat_complete_dual
chat_complete_dual-held ws sch await_two one_first req rr s =
    (unless_err-Keeps ws sch await_two one_first s.held (check_closed sch) rr s _ (λ x e. refl)
      (λ e.
        over_some-Keeps ws sch await_two one_first s.held _ req rr _ (available-held sch s))).held

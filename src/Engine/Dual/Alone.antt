-- ===== src/Engine/Dual/Alone.antt =====
-- internal/engine/scheduler.go: ChatCompleteDual where no two providers of different names are
-- available.
use native.Mathlib.Nat.{mod-lt}
use ao_eo.Base.{
  ℕ, zero, suc, ◌+◌, ◌-◌, ◌*◌, ◌%◌, ◌^◌, ◌≡◌, refl, ap, ◌∙◌, String, Bool, List, [], ◌∷◌, length,
  get_elem?, Option, none, some, Error, ok, eq_iff, arith,
}
use ao_eo.Core.Types.{Request}
use ao_eo.Core.Router.{add_one}
use ao_eo.Core.Interceptor.{apply_before}
use ao_eo.Engine.Scheduler.{Provider, Scheduler, State, check_closed}
use ao_eo.Engine.Scheduler.Complete.{chat_complete}
use ao_eo.Engine.Scheduler.Fallback.{available_providers}
use ao_eo.Engine.Audit.{Words, pick_round_robin, pick_other}
use ao_eo.Engine.Audit.Others.{present, rescan, rescan-settles}
use ao_eo.Engine.Dual.{
  alone, routed_pair, with_second, with_first, with_pair, over_some, chat_complete_dual,
}

-- All providers have this name.
abbrev pub AllNamed : {W : Type 0} → String → List (Provider W) → Type 0
AllNamed name [] = Unit {0}
AllNamed name (p ∷ ps) = (p.config.name ≡ name) × AllNamed name ps

named_at :
    {W : Type 0} (name : String) (ps : List (Provider W)) (i : ℕ) (q : Provider W)
    → AllNamed name ps
    → get_elem? ps i ≡ some q
    → q.config.name ≡ name
named_at name [] i q h e = absurd (cc e)
named_at name (p ∷ ps) zero q h e = (let same : p ≡ q = cc in rw (← same) h.0)
named_at name (p ∷ ps) (suc i) q h e = named_at name ps i q h.1 e

-- The counter after so many picks
abbrev turns : ℕ → ℕ → ℕ
turns zero rr = rr
turns (suc k) rr = turns k (add_one rr)

turns-eq : (k rr : ℕ) → turns (suc k) rr ≡ (rr + suc k) % 2 ^ 64
unfolding add_one
turns-eq zero rr = refl
turns-eq (suc k) rr = turns-eq k (add_one rr) ∙ omega arith

-- In a state whose scan changes nothing
module _ {W : Type 0} (ws : Words) (sch : Scheduler W) (p : Provider W) (ps : List (Provider W))
    (s : State W) (list : (available_providers sch s).0 ≡ p ∷ ps)
    (settled : (available_providers sch s).1 ≡ s) (name : String)
    (named : AllNamed name (p ∷ ps)) where
  pick-named :
      (rr : ℕ)
      → (q : Provider W) × (pick_round_robin ws sch rr s ≡ (some q, (add_one rr, s)))
        × (q.config.name ≡ name)
  unfolding pick_round_robin
  pick-named rr =
      let i = (add_one rr + (2 ^ 64 - 1)) % 2 ^ 64 % length (p ∷ ps) in
      let (q, at) = present (p ∷ ps) i (mod-lt _ (omega arith)) in
      (q, rw (list, settled, at), named_at name (p ∷ ps) i q named at)

  pick_other-none :
      (attempts rr : ℕ) → pick_other ws sch name attempts rr s ≡ (none, (turns attempts rr, s))
  unfolding pick_other
  pick_other-none zero rr = refl
  pick_other-none (suc attempts) rr =
      let (q, turn, called) = pick-named rr in
      rw (turn, (eq_iff q.config.name name).1 called) (pick_other-none attempts (add_one rr))

  with_pair-alone :
      (await_two : W → Option Error × W) (one_first : Bool) (n : ℕ) (req : Request) (rr : ℕ)
      → with_pair ws sch await_two one_first (ok (none, none)) n req rr s
        ≡ alone (chat_complete sch req s) (turns (suc (n * 2)) rr)
  unfolding with_pair with_first with_second
  with_pair-alone await_two one_first n req rr =
      let (q, turn, called) = pick-named rr in
      rw (turn, called, pick_other-none (n * 2) (add_one rr)) refl

routed_pair-none :
    {W : Type 0} (ws : Words) (sch : Scheduler W) (await_two : W → Option Error × W)
    (one_first : Bool) (req : Request) (w : W)
    → sch.router ≡ none
    → routed_pair ws sch await_two one_first sch.router req w ≡ (ok (none, none), w)
unfolding routed_pair
routed_pair-none ws sch await_two one_first req w e = rw e

dual_eq :
    {W : Type 0} (ws : Words) (sch : Scheduler W) (p : Provider W) (ps : List (Provider W))
    (await_two : W → Option Error × W) (one_first : Bool) (req : Request) (rr : ℕ) (s : State W)
    → check_closed sch ≡ none
    → sch.router ≡ none
    → (available_providers sch s).0 ≡ p ∷ ps
    → (apply_before sch.chain req).0 ≡ none
    → chat_complete_dual ws sch await_two one_first req rr s
      ≡ with_pair ws sch await_two one_first
          (ok (none, none))
          (length (p ∷ ps))
          (apply_before sch.chain req).1
          rr
          (available_providers sch s).1
unfolding chat_complete_dual over_some
dual_eq ws sch p ps await_two one_first req rr s live unrouted list passes =
    let sent = (apply_before sch.chain req).1 in
    rw (
      live,
      list,
      passes,
      routed_pair-none ws sch await_two one_first sent (available_providers sch s).1.world unrouted,
    )

-- Where the available providers, one or more, all have the same name, no router is set, and the
-- BeforeRequest hooks let the request pass, ChatCompleteDual of an open scheduler does exactly what
-- ChatComplete does with the request that the hooks have changed already, in the state in which the
-- scan of the providers leaves the scheduler: reply, error or panic, the slots, the history and the
-- cache are those of this one call, which runs the hooks again. The counter of the round robin has
-- advanced by one and twice the number of the available providers, modulo 2^64.
pub chat_complete_dual-alone :
    {W : Type 0} (ws : Words) (sch : Scheduler W) (p : Provider W) (ps : List (Provider W))
    (await_two : W → Option Error × W) (one_first : Bool) (req : Request) (rr : ℕ) (s : State W)
    → check_closed sch ≡ none
    → sch.router ≡ none
    → (available_providers sch s).0 ≡ p ∷ ps
    → AllNamed p.config.name ps
    → (apply_before sch.chain req).0 ≡ none
    → chat_complete_dual ws sch await_two one_first req rr s
      ≡ alone
          (chat_complete sch (apply_before sch.chain req).1 (available_providers sch s).1)
          ((rr + (1 + 2 * length (p ∷ ps))) % 2 ^ 64)
chat_complete_dual-alone ws sch p ps await_two one_first req rr s live unrouted list named passes =
    let sent = (apply_before sch.chain req).1 in
    let s' = (available_providers sch s).1 in
    let n = length (p ∷ ps) in
    dual_eq ws sch p ps await_two one_first req rr s live unrouted list passes
    ∙ with_pair-alone ws sch p ps s' (rescan ws sch s ∙ list) (rescan-settles ws sch s)
        p.config.name (refl, named) await_two one_first n sent rr
    ∙ ap (alone (chat_complete sch sent s')) (turns-eq (n * 2) rr ∙ omega arith)

-- ===== src/Engine/Stream/Holding.antt =====
-- internal/engine/stream.go: the slot of a streaming call.
use ao_eo.Base.{
  ℕ, ◌+◌, ◌≡◌, refl, ◌∙◌, List, [], ◌∷◌, Option, none, some, Error, Outcome, ok, err, panic, arith,
  Bool-cases, Option-cases, inl, inr, if◌then◌else◌,
}
use ao_eo.Core.Types.{Request}
use ao_eo.Engine.Scheduler.{Provider, Router, Scheduler, State, acquire, release, check_closed}
use ao_eo.Engine.Scheduler.Slots.{acquire-held, acquire-failed, available-held}
use ao_eo.Engine.Stream.{
  Opened, opened, not_opened, broken, Call, refused, crashed, streaming, Chain, Turn, pump,
  when_opened, unless_refused, open_on, open_primary, open_at, open_picked, unless_error,
  chat_complete_stream, chat_complete_stream_with_router, finish, run_stream,
}

-- The slots held after the turns: those before the call, and one more while the goroutine is in its
-- loop, or after a panic in the call itself.
abbrev pub slots_after : {W : Type 0} → Chain → List Turn → ℕ → Call W → ℕ
slots_after chain turns n (refused e s) = n
slots_after chain turns n (crashed r s) = n + 1
slots_after chain turns n (streaming req s) = if (pump chain req turns).left then n else n + 1

record Balanced {W : Type 0} (chain : Chain) (turns : List Turn) (n : ℕ) (c : Call W) : Type 0 where
  held : (run_stream chain turns c).held ≡ slots_after chain turns n c

module _ {W : Type 0} (opens : Provider W → Request → W → Opened × W) (sch : Scheduler W)
    (turns : List Turn) where
  refused-Balanced :
      (e : Error) (n : ℕ) (s : State W) → s.held ≡ n → Balanced sch.chain turns n (refused e s)
  unfolding run_stream
  refused-Balanced e n s h = record { held = h }

  released-Balanced :
      (e : Error) (n : ℕ) (s : State W)
      → s.held ≡ n + 1
      → Balanced sch.chain turns n (refused e (release s))
  unfolding run_stream release
  released-Balanced e n s h = record { held = omega arith }

  crashed-Balanced :
      (r : _) (n : ℕ) (s : State W) → s.held ≡ n + 1 → Balanced sch.chain turns n (crashed r s)
  unfolding run_stream
  crashed-Balanced r n s h = record { held = h }

  streaming-Balanced :
      (req : Request) (n : ℕ) (s : State W)
      → s.held ≡ n + 1
      → Balanced sch.chain turns n (streaming req s)
  unfolding run_stream finish release
  streaming-Balanced req n s h = elim (Bool-cases (pump sch.chain req turns).left) [
    | inl e ↦ record { held = rw (e, run_stream, finish) (omega arith) }
    | inr e ↦ record { held = rw (e, run_stream, finish) h }
  ]

  when_opened-Balanced :
      (o : Opened) (req : Request) (n : ℕ) (s : State W)
      → s.held ≡ n + 1
      → Balanced sch.chain turns n (when_opened opens o req s)
  when_opened-Balanced opened req n s h = streaming-Balanced req n s h
  when_opened-Balanced (not_opened e) req n s h = released-Balanced e n s h
  when_opened-Balanced (broken r) req n s h = crashed-Balanced r n s h

  unless_refused-Balanced :
      (e : Option Error) (n : ℕ) (s : State W) (c : Call W)
      → s.held ≡ n + 1
      → Balanced sch.chain turns n c
      → Balanced sch.chain turns n (unless_refused opens e s c)
  unless_refused-Balanced none n s c h b = b
  unless_refused-Balanced (some e) n s c h b = released-Balanced e n s h

  open_on-Balanced :
      (p : Provider W) (req : Request) (n : ℕ) (s : State W)
      → s.held ≡ n + 1
      → Balanced sch.chain turns n (open_on opens sch p req s)
  unfolding open_on
  open_on-Balanced p req n s h = unless_refused-Balanced _ n s _ h (when_opened-Balanced _ _ n _ h)

  open_primary-Balanced :
      (ps : List (Provider W)) (req : Request) (n : ℕ) (s : State W)
      → s.held ≡ n + 1
      → Balanced sch.chain turns n (open_primary opens sch ps req s)
  unfolding open_primary
  open_primary-Balanced [] req n s h = released-Balanced _ n s h
  open_primary-Balanced (p ∷ ps) req n s h = open_on-Balanced p req n s h

  open_at-Balanced :
      (p : Option (Provider W)) (req : Request) (n : ℕ) (s : State W)
      → s.held ≡ n + 1
      → Balanced sch.chain turns n (open_at opens sch p req s)
  open_at-Balanced none req n s h = crashed-Balanced _ n s h
  open_at-Balanced (some p) req n s h = open_on-Balanced p req n s h

  open_picked-Balanced :
      (o : Outcome ℕ) (req : Request) (n : ℕ) (s : State W)
      → s.held ≡ n + 1
      → Balanced sch.chain turns n (open_picked opens sch o req s)
  unfolding open_picked
  open_picked-Balanced (ok i) req n s h = open_at-Balanced _ req n s h
  open_picked-Balanced (err e) req n s h = released-Balanced e n s h
  open_picked-Balanced (panic r) req n s h = crashed-Balanced r n s h

  unless_error-Balanced :
      (e : Option Error) (n : ℕ) (s : State W) (c : Call W)
      → s.held ≡ n
      → (e ≡ none → Balanced sch.chain turns n c)
      → Balanced sch.chain turns n (unless_error opens e s c)
  unless_error-Balanced none n s c h b = b refl
  unless_error-Balanced (some e) n s c h b = refused-Balanced e n s h

  acquired-Balanced :
      (s : State W) (c : Call W)
      → ((acquire sch s).1.held ≡ s.held + 1 → Balanced sch.chain turns s.held c)
      → Balanced sch.chain turns s.held (unless_error opens (acquire sch s).0 (acquire sch s).1 c)
  acquired-Balanced s c b = elim (Option-cases (acquire sch s).0) [
    | inl e ↦ rw e (b (acquire-held sch s e))
    | inr (x, e) ↦ rw e (refused-Balanced x s.held _ (acquire-failed sch s x e))
  ]

  -- A streaming call, with or without a router, ends with the slots that it found once its goroutine
  -- has left its loop, and so does a call that fails; while the goroutine is in its loop the call
  -- holds one slot. Where the provider or the router panics in the call, its slot stays taken.
  pub stream-held :
      (r : Router W) (req : Request) (s : State W)
      → ((run_stream sch.chain turns (chat_complete_stream opens sch req s)).held
          ≡ slots_after sch.chain turns s.held (chat_complete_stream opens sch req s))
        × ((run_stream sch.chain turns (chat_complete_stream_with_router opens sch r req s)).held
            ≡ slots_after sch.chain turns s.held
                (chat_complete_stream_with_router opens sch r req s))
  unfolding chat_complete_stream chat_complete_stream_with_router
  stream-held r req s = (
    (unless_error-Balanced (check_closed sch) s.held s _ refl (λ e.
        acquired-Balanced s _
          (λ h. open_primary-Balanced _ req s.held _ (available-held sch _ ∙ h)))).held,
    (unless_error-Balanced (check_closed sch) s.held s _ refl
        (λ e. acquired-Balanced s _ (λ h. open_picked-Balanced _ req s.held _ h))).held,
  )

-- ===== src/Engine/Scheduler/Cases.antt =====
-- internal/engine/scheduler.go: what holds of the end of a call, by the ways in which it can end.
use ao_eo.Base.{
  ◌≡◌, refl, String, List, [], Option, none, some, Outcome, ok, err, panic, Error, ℕ, ℤ,
}
use ao_eo.Core.Types.{Response}
use ao_eo.Core.Interceptor.{Reply, values, panicked}
use ao_eo.Engine.Scheduler.{Provider, State, failure}
use ao_eo.Engine.Scheduler.Complete.{Result, unless_error, settle, at_index, when_picked}
use ao_eo.Engine.Scheduler.Fallback.{unless_answered, when_recorded, when_sequenced}

module _ {W : Type 0} (P : Result W → Type 0) where
  pub unless_error-cases :
      (o : Option Error) (s : State W) (rest : Result W)
      → ((e : Error) → o ≡ some e → P (values (failure e), s))
      → (o ≡ none → P rest)
      → P (unless_error o s rest)
  unfolding unless_error
  unless_error-cases (some e) s rest h k = h e refl
  unless_error-cases none s rest h k = k refl

  pub settle-cases :
      (o : Outcome (Unit {0})) (reply : Reply Response) (s : State W)
      → P (values reply, s)
      → ((r : String) → o ≡ panic r → P (panicked r, s))
      → P (settle o reply s)
  unfolding settle
  settle-cases (panic r) reply s h k = k r refl
  settle-cases (ok u) reply s h k = h
  settle-cases (err e) reply s h k = h

  pub at_index-cases :
      (o : Option (Provider W)) (s : State W) (rest : Provider W → Result W)
      → (o ≡ none → P (panicked "index out of range", s))
      → ((p : Provider W) → P (rest p))
      → P (at_index o s rest)
  unfolding at_index
  at_index-cases none s rest h k = h refl
  at_index-cases (some p) s rest h k = k p

  pub when_picked-cases :
      (o : Outcome ℕ) (s : State W) (rest : ℕ → Result W)
      → ((e : Error) → P (values (failure e), s))
      → ((r : String) → o ≡ panic r → P (panicked r, s))
      → ((i : ℕ) → o ≡ ok i → P (rest i))
      → P (when_picked o s rest)
  unfolding when_picked
  when_picked-cases (ok i) s rest h k l = l i refl
  when_picked-cases (err e) s rest h k l = h e
  when_picked-cases (panic r) s rest h k l = k r refl

  pub unless_answered-cases :
      (o : Option Error) (reply : Reply Response) (s : State W) (next : Error → Result W)
      → P (values reply, s)
      → ((e : Error) → P (next e))
      → P (unless_answered o reply s next)
  unfolding unless_answered
  unless_answered-cases none reply s next h k = h
  unless_answered-cases (some e) reply s next h k = k e

  pub when_recorded-cases :
      (o : Outcome (Unit {0})) (s : State W) (rest : Result W)
      → ((r : String) → o ≡ panic r → P (panicked r, s))
      → P rest
      → P (when_recorded o s rest)
  unfolding when_recorded
  when_recorded-cases (panic r) s rest h k = h r refl
  when_recorded-cases (ok u) s rest h k = k
  when_recorded-cases (err e) s rest h k = k

  pub when_sequenced-cases :
      (o : Outcome (List ℤ)) (s : State W) (rest : List ℤ → Result W)
      → ((r : String) → o ≡ panic r → P (panicked r, s))
      → ((seq : List ℤ) → P (rest seq))
      → P (when_sequenced o s rest)
  unfolding when_sequenced
  when_sequenced-cases (ok seq) s rest h k = k seq
  when_sequenced-cases (err e) s rest h k = k []
  when_sequenced-cases (panic r) s rest h k = h r refl

-- ===== src/Engine/Retry.antt =====
-- internal/engine/retry_impl.go: the retry loop with exponential backoff. The operation is a state
-- transformer, so that its effects stay; a wait ends by its timer or by the context.
pub mod Attempts
pub mod Waits
mod Tests
use ao_eo.Base.{
  ℕ, zero, suc, ◌+◌, ◌*◌, Bool, true, false, List, [], ◌∷◌, Outcome, ok, err, panic, Error,
  context_done, retry_cancelled, retries_exhausted, if◌then◌else◌, ℤ, pos, negsuc, is_nonpos, ltb_ℤ,
}

-- What the loop takes from float64, from math/rand and from the context: `grow k d` is the delay
-- after wait k of length d, multiplied and jittered; `cancelled k` says that the context ended
-- during wait k.
pub record Env : Type 0 where
  pub grow : ℕ → ℤ → ℤ
  pub cancelled : ℕ → Bool
  pub expired : Bool  -- ctx.Err() is set on entry

pub record RetryConfig : Type 0 where
  pub max_retries : ℤ
  pub base_delay : ℤ
  pub max_delay : ℤ
  pub retryable : Error → Bool

-- What a call of DoRetry did: its result, the state it left, the number of calls of fn and the
-- waits, in order.
pub record Run {ℓ} (S : Type ℓ) : Type ℓ where
  pub outcome : Outcome (Unit {0})
  pub state : S
  pub calls : ℕ
  pub waits : List ℤ

-- Durations in nanoseconds: 500 * time.Millisecond and 5 * time.Second
abbrev pub default_base : ℤ
default_base = pos 500_000_000

abbrev pub default_max : ℤ
default_max = pos 5_000_000_000

unfoldable pub defaulted : ℤ → ℤ → ℤ
defaulted d fallback = if is_nonpos d then fallback else d

unfoldable pub capped : ℤ → ℤ → ℤ
capped d max_delay = if ltb_ℤ max_delay d then max_delay else d

module _ {ℓ} {S : Type ℓ} (env : Env) (retryable : Error → Bool) (max_delay : ℤ) (max_retries : ℕ)
    (fn : S → Outcome (Unit {0}) × S) where
  -- What follows a failed attempt that another attempt may follow: `rest` is the next round.
  abbrev after_failure : Error → ℕ → ℤ → S → Run S → Run S
  after_failure e attempt delay s rest =
      if retryable e
      then (if env.cancelled attempt
          then record {
            outcome = err (retry_cancelled context_done);
            state = s;
            calls = 1;
            waits = delay ∷ [];
          }
          else record rest { calls = suc rest.calls; waits = delay ∷ rest.waits })
      else record { outcome = err e; state = s; calls = 1; waits = [] }

  -- The loop from `attempt` on, with `left` retries left: attempt + left = maxRetries.
  unfoldable pub loop : ℕ → ℕ → ℤ → S → Run S
  loop zero attempt delay s = elim (fn s).0 [
    | ok _ ↦ record { outcome = ok tt; state = (fn s).1; calls = 1; waits = [] }
    | err e ↦ record {
      outcome = err (retries_exhausted max_retries e);
      state = (fn s).1;
      calls = 1;
      waits = [];
    }
    | panic r ↦ record { outcome = panic r; state = (fn s).1; calls = 1; waits = [] }
  ]
  loop (suc left) attempt delay s =
      let rest = loop left (attempt + 1) (capped (env.grow attempt delay) max_delay) (fn s).1 in
      elim (fn s).0 [
        | ok _ ↦ record { outcome = ok tt; state = (fn s).1; calls = 1; waits = [] }
        | err e ↦ after_failure e attempt delay (fn s).1 rest
        | panic r ↦ record { outcome = panic r; state = (fn s).1; calls = 1; waits = [] }
      ]

-- fn, called once
unfoldable pub call_once {ℓ} : {S : Type ℓ} → (S → Outcome (Unit {0}) × S) → S → Run S
call_once fn s = record { outcome = (fn s).0; state = (fn s).1; calls = 1; waits = [] }

unfoldable pub attempts {ℓ} :
    {S : Type ℓ} → Env → ℤ → RetryConfig → (S → Outcome (Unit {0}) × S) → S → Run S
unfolding loop call_once defaulted
attempts env (pos zero) cfg fn s = call_once fn s
attempts env (negsuc n) cfg fn s = call_once fn s
attempts env (pos (suc n)) cfg fn s =
    loop env cfg.retryable (defaulted cfg.max_delay default_max) (suc n) fn (suc n) 0
      (defaulted cfg.base_delay default_base) s

-- DoRetry
unfoldable pub do_retry {ℓ} :
    {S : Type ℓ} → Env → RetryConfig → (S → Outcome (Unit {0}) × S) → S → Run S
unfolding attempts
do_retry env cfg fn s =
    if env.expired
    then record { outcome = err context_done; state = s; calls = 0; waits = [] }
    else attempts env cfg.max_retries cfg fn s

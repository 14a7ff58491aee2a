-- ===== src/Engine/Retry/Waits.antt =====
-- internal/engine/retry_impl.go: how long DoRetry waits between attempts.
use ao_eo.Base.{
  ℕ, zero, suc, ◌+◌, ◌≡◌, Bool, true, false, List, [], ◌∷◌, Outcome, err, Error, arith, ℤ, pos,
  ◌≤ℤ◌, Bool-cases, inl, inr,
}
use ao_eo.Engine.Retry.{
  Env, RetryConfig, loop, capped, do_retry, default_max, default_base, defaulted,
}
use ao_eo.Engine.Retry.Attempts.{do_retry-enters}

abbrev pub AllWithin : ℤ → List ℤ → Type 0
AllWithin bound [] = Unit {0}
AllWithin bound (d ∷ ds) = (d ≤ℤ bound) × AllWithin bound ds

capped-le : (d bound : ℤ) → capped d bound ≤ℤ bound
unfolding capped
capped-le d bound = ground arith

module _ {ℓ} {S : Type ℓ} (env : Env) (retryable : Error → Bool) (bound : ℤ) (n : ℕ)
    (fn : S → Outcome (Unit {0}) × S) where
  loop-waits :
      (left attempt : ℕ) (delay : ℤ) (s : S)
      → delay ≤ℤ bound
      → AllWithin bound (loop env retryable bound n fn left attempt delay s).waits
  unfolding loop
  loop-waits zero attempt delay s h = ground arith
  loop-waits (suc left) attempt delay s h = ground (
    arith,
    loop-waits left (attempt + 1) (capped (env.grow attempt delay) bound) (fn s).1
        (capped-le (env.grow attempt delay) bound),
  )

module _ {ℓ} {S : Type ℓ} (env : Env) (cfg : RetryConfig) (fn : S → Outcome (Unit {0}) × S) (n : ℕ)
    (retries : cfg.max_retries ≡ pos (suc n)) (live : env.expired ≡ false) where
  abbrev base : ℤ
  base = defaulted cfg.base_delay default_base

  abbrev bound : ℤ
  bound = defaulted cfg.max_delay default_max

  -- With a live context, retries left and a first attempt that fails retryably: the first wait is
  -- the base delay itself (or its default), which nothing compares with the maximum, and every
  -- later wait is at most the maximum (or its default).
  pub do_retry-waits :
      (s : S) (e : Error)
      → (fn s).0 ≡ err e
      → cfg.retryable e ≡ true
      → (rest : List ℤ) × ((do_retry env cfg fn s).waits
          ≡ defaulted cfg.base_delay default_base ∷ rest)
        × AllWithin (defaulted cfg.max_delay default_max) rest
  unfolding loop
  do_retry-waits s e f r =
      rw (do_retry-enters env cfg fn n retries live s) (elim (Bool-cases (env.cancelled 0)) [
        | inl c ↦ ([], rw (f, loop, r, c), tt)
        | inr c ↦ (
          _,
          rw (f, loop, r, c),
          loop-waits env cfg.retryable bound (suc n) fn n 1 (capped (env.grow 0 base) bound)
              (fn s).1 (capped-le (env.grow 0 base) bound),
        )
      ])

-- ===== src/Engine/Retry/Attempts.antt =====
-- internal/engine/retry_impl.go: which attempts DoRetry makes, and what it returns.
use ao_eo.Base.{
  ℕ, zero, suc, ◌+◌, ◌-◌, ◌≤◌, ◌≡◌, refl, ap, ◌∙◌, Bool, true, false, [], ◌∷◌, length, Outcome, ok,
  err, Error, retries_exhausted, arith, inl, inr, ◌↔◌, ℤ, pos, negsuc, Bool-cases,
}
use ao_eo.Engine.Retry.{
  Env, RetryConfig, Run, loop, capped, do_retry, attempts, default_max, default_base, defaulted,
}

-- The state after k calls of fn.
abbrev pub after_calls {ℓ} : {S : Type ℓ} → (S → Outcome (Unit {0}) × S) → ℕ → S → S
after_calls fn zero s = s
after_calls fn (suc k) s = after_calls fn k (fn s).1

-- The next k attempts, the first of them number `attempt`, fail with a retryable error, and no
-- wait after them is cancelled.
abbrev pub Fails {ℓ} :
    {S : Type ℓ} → Env → (Error → Bool) → (S → Outcome (Unit {0}) × S) → ℕ → ℕ → S → Type 0
Fails env retryable fn zero attempt s = Unit
Fails env retryable fn (suc k) attempt s =
    (e : Error) × ((fn s).0 ≡ err e)
    × (retryable e ≡ true)
    × (env.cancelled attempt ≡ false)
    × Fails env retryable fn k (attempt + 1) (fn s).1

module _ {ℓ} {S : Type ℓ} (env : Env) (retryable : Error → Bool) (max_delay : ℤ) (n : ℕ)
    (fn : S → Outcome (Unit {0}) × S) where
  abbrev run : ℕ → ℕ → ℤ → S → Run S
  run = loop env retryable max_delay n fn

  run-retries :
      (left attempt : ℕ) (delay : ℤ) (s : S) (e : Error)
      → (fn s).0 ≡ err e
      → retryable e ≡ true
      → env.cancelled attempt ≡ false
      → let rest = run left (attempt + 1) (capped (env.grow attempt delay) max_delay) (fn s).1 in
        run (suc left) attempt delay s
        ≡ record rest { calls = suc rest.calls; waits = delay ∷ rest.waits }
  unfolding loop
  run-retries left attempt delay s e f r c = rw (f, loop, r, c)

  -- k failures that are retried leave the loop with k retries less.
  run-after :
      (k left attempt : ℕ) (delay : ℤ) (s : S)
      → k ≤ left
      → Fails env retryable fn k attempt s
      → (delay' : ℤ) × ((run left attempt delay s).outcome
          ≡ (run (left - k) (attempt + k) delay' (after_calls fn k s)).outcome)
        × ((run left attempt delay s).state
            ≡ (run (left - k) (attempt + k) delay' (after_calls fn k s)).state)
        × ((run left attempt delay s).calls
            ≡ k + (run (left - k) (attempt + k) delay' (after_calls fn k s)).calls)
  run-after zero left attempt delay s h f =
      let a : left - 0 ≡ left = omega arith in
      let b : attempt + 0 ≡ attempt = omega arith in
      (delay, rw (a, b), rw (a, b), rw (a, b) (omega arith))
  run-after (suc k) zero attempt delay s h f = absurd (omega arith)
  run-after (suc k) (suc left) attempt delay s h (e, f, r, c, fails) =
      let (delay', p, q, m) =
        run-after k left (attempt + 1) (capped (env.grow attempt delay) max_delay) (fn s).1
          (omega arith) fails in
      let step = run-retries left attempt delay s e f r c in
      let a : suc left - suc k ≡ left - k = omega arith in
      let b : attempt + suc k ≡ attempt + 1 + k = omega arith in
      (
        delay',
        rw (a, b) (ap (λ (x : Run S). x.outcome) step ∙ p),
        rw (a, b) (ap (λ (x : Run S). x.state) step ∙ q),
        rw (a, b) (omega (arith, ap (λ (x : Run S). x.calls) step, m)),
      )

  run-ok :
      (left attempt : ℕ) (delay : ℤ) (s : S)
      → (fn s).0 ≡ ok tt
      → run left attempt delay s
        ≡ record { outcome = ok tt; state = (fn s).1; calls = 1; waits = [] }
  unfolding loop
  run-ok zero attempt delay s f = rw (f, loop)
  run-ok (suc left) attempt delay s f = rw (f, loop)

  run-last :
      (attempt : ℕ) (delay : ℤ) (s : S) (e : Error)
      → (fn s).0 ≡ err e
      → run 0 attempt delay s
        ≡ record { outcome = err (retries_exhausted n e); state = (fn s).1; calls = 1; waits = [] }
  unfolding loop
  run-last attempt delay s e f = rw (f, loop)

  run-final :
      (left attempt : ℕ) (delay : ℤ) (s : S) (e : Error)
      → (fn s).0 ≡ err e
      → retryable e ≡ false
      → run (suc left) attempt delay s
        ≡ record { outcome = err e; state = (fn s).1; calls = 1; waits = [] }
  unfolding loop
  run-final left attempt delay s e f r = rw (f, loop, r)

  run-bounds :
      (left attempt : ℕ) (delay : ℤ) (s : S)
      → (1 ≤ (run left attempt delay s).calls)
        × ((run left attempt delay s).calls ≤ suc left)
        × (length (run left attempt delay s).waits ≤ left)
  unfolding loop
  run-bounds zero attempt delay s = ground arith
  run-bounds (suc left) attempt delay s =
      ground
        (arith, run-bounds left (attempt + 1) (capped (env.grow attempt delay) max_delay) (fn s).1)

module _ {ℓ} {S : Type ℓ} (env : Env) (cfg : RetryConfig) (fn : S → Outcome (Unit {0}) × S) (n : ℕ)
    (retries : cfg.max_retries ≡ pos (suc n)) (live : env.expired ≡ false) where
  abbrev base : ℤ
  base = defaulted cfg.base_delay default_base

  abbrev bound : ℤ
  bound = defaulted cfg.max_delay default_max

  abbrev enters : S → Run S
  enters s = loop env cfg.retryable bound (suc n) fn (suc n) 0 base s

  pub do_retry-enters : (s : S) → do_retry env cfg fn s ≡ enters s
  unfolding do_retry
  do_retry-enters s = rw (live, do_retry, retries, attempts)

  -- With a live context and n + 1 retries: if the first k attempts fail retryably with no wait
  -- cancelled, k is at most n + 1, and the next call succeeds, then DoRetry succeeds after k + 1
  -- calls, with the state that those calls leave.
  pub do_retry-ok :
      (s : S) (k : ℕ)
      → k ≤ suc n
      → Fails env cfg.retryable fn k 0 s
      → (fn (after_calls fn k s)).0 ≡ ok tt
      → ((do_retry env cfg fn s).outcome ≡ ok tt)
        × ((do_retry env cfg fn s).state ≡ (fn (after_calls fn k s)).1)
        × ((do_retry env cfg fn s).calls ≡ k + 1)
  do_retry-ok s k h fails f =
      let (delay, p, q, m) =
        run-after env cfg.retryable bound (suc n) fn k (suc n) 0 base s h fails in
      let last =
        run-ok env cfg.retryable bound (suc n) fn (suc n - k) (0 + k) delay (after_calls fn k s)
          f in
      rw (do_retry-enters s) (
        p ∙ ap (λ (x : Run S). x.outcome) last,
        q ∙ ap (λ (x : Run S). x.state) last,
        m ∙ ap (λ (x : Run S). k + x.calls) last,
      )

  -- With a live context and n + 1 retries: if the first n + 1 attempts fail retryably with no wait
  -- cancelled, and the last call fails with e, then DoRetry makes n + 2 calls and reports e as the
  -- last error, whether e is retryable or not.
  pub do_retry-exhausted :
      (s : S) (e : Error)
      → Fails env cfg.retryable fn (suc n) 0 s
      → (fn (after_calls fn (suc n) s)).0 ≡ err e
      → ((do_retry env cfg fn s).outcome ≡ err (retries_exhausted (suc n) e))
        × ((do_retry env cfg fn s).calls ≡ n + 2)
  do_retry-exhausted s e fails f =
      let (delay, p, q, m) =
        run-after env cfg.retryable bound (suc n) fn (suc n) (suc n) 0 base s (omega arith) fails in
      let none_left : suc n - suc n ≡ 0 = omega arith in
      let last =
        run-last env cfg.retryable bound (suc n) fn (0 + suc n) delay (after_calls fn (suc n) s) e
          f in
      rw (do_retry-enters s) (
        (rw none_left at p) ∙ ap (λ (x : Run S). x.outcome) last,
        omega (arith, (rw none_left at m), ap (λ (x : Run S). x.calls) last),
      )

  -- With a live context and n + 1 retries: if the first k attempts, k at most n, fail retryably
  -- with no wait cancelled, and the next fails with an error that is not retryable, then DoRetry
  -- returns that error after k + 1 calls, with no more attempts.
  pub do_retry-gives_up :
      (s : S) (k : ℕ) (e : Error)
      → k ≤ n
      → Fails env cfg.retryable fn k 0 s
      → (fn (after_calls fn k s)).0 ≡ err e
      → cfg.retryable e ≡ false
      → ((do_retry env cfg fn s).outcome ≡ err e) × ((do_retry env cfg fn s).calls ≡ k + 1)
  do_retry-gives_up s k e h fails f r =
      let (delay, p, q, m) =
        run-after env cfg.retryable bound (suc n) fn k (suc n) 0 base s (omega arith) fails in
      let more : suc n - k ≡ suc (n - k) = omega arith in
      let last =
        run-final env cfg.retryable bound (suc n) fn (n - k) (0 + k) delay (after_calls fn k s) e f
          r in
      rw (do_retry-enters s) (
        (rw more at p) ∙ ap (λ (x : Run S). x.outcome) last,
        (rw more at m) ∙ ap (λ (x : Run S). k + x.calls) last,
      )

-- The number of retries that the configuration asks for: none for a number that is not positive.
abbrev pub retries_of : ℤ → ℕ
retries_of (pos n) = n
retries_of (negsuc n) = 0

attempts-bounds {ℓ} :
    {S : Type ℓ} (env : Env) (cfg : RetryConfig) (fn : S → Outcome (Unit {0}) × S) (m : ℤ) (s : S)
    → (1 ≤ (attempts env m cfg fn s).calls)
      × ((attempts env m cfg fn s).calls ≤ suc (retries_of m))
      × (length (attempts env m cfg fn s).waits ≤ retries_of m)
unfolding attempts
attempts-bounds env cfg fn (pos zero) s = omega arith
attempts-bounds env cfg fn (negsuc n) s = omega arith
attempts-bounds env cfg fn (pos (suc n)) s = run-bounds env cfg.retryable _ (suc n) fn (suc n) 0 _ s

-- DoRetry ends whatever fn and the environment do. It calls fn at most once more than the retries
-- that are configured, waits at most once for each retry, and does not call fn at all exactly if
-- the context is over on entry.
pub do_retry-bounds {ℓ} :
    {S : Type ℓ} (env : Env) (cfg : RetryConfig) (fn : S → Outcome (Unit {0}) × S) (s : S)
    → ((do_retry env cfg fn s).calls ≤ suc (retries_of cfg.max_retries))
      × (length (do_retry env cfg fn s).waits ≤ retries_of cfg.max_retries)
      × (((do_retry env cfg fn s).calls ≡ 0) ↔ (env.expired ≡ true))
unfolding do_retry
do_retry-bounds env cfg fn s = elim (Bool-cases env.expired) [
  | inl e ↦ rw (e, do_retry) (omega arith, omega arith, (λ h. refl, λ h. refl))
  | inr e ↦
      let (one, most, waits) = attempts-bounds env cfg fn cfg.max_retries s in
      rw (e, do_retry) (most, waits, (λ h. absurd (omega arith), λ h. cc))
]

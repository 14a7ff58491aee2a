-- ===== src/Engine/Retry/Tests.antt =====
-- internal/engine/retry_impl.go: an operation that fails as often as its state says.
use ao_eo.Base.{
  ℕ, zero, suc, ◌≤◌, ◌≡◌, ◌↔◌, refl, Bool, true, false, List, ◌∷◌, length, Outcome, ok, err, Error,
  external, ℤ, pos,
}
use ao_eo.Engine.Retry.{Env, RetryConfig, do_retry, default_max, default_base, defaulted}
use ao_eo.Engine.Retry.Attempts.{retries_of, do_retry-bounds}
use ao_eo.Engine.Retry.Waits.{AllWithin, do_retry-waits}

abbrev env : Env
env = record { grow = λ k d. d; cancelled = λ k. false; expired = false }

abbrev cfg : RetryConfig
cfg = record { max_retries = pos 2; base_delay = pos 700; max_delay = pos 500; retryable = retries }
  where
    retries : Error → Bool
    retries (external m) = true
    retries _ = false

-- It fails until its state is zero.
abbrev flaky : ℕ → Outcome (Unit {0}) × ℕ
flaky zero = (ok tt, zero)
flaky (suc k) = (err (external "503"), k)

do_retry-bounds_example :
    ((do_retry env cfg flaky 2).calls ≤ suc (retries_of cfg.max_retries))
    × (length (do_retry env cfg flaky 2).waits ≤ retries_of cfg.max_retries)
    × (((do_retry env cfg flaky 2).calls ≡ 0) ↔ (env.expired ≡ true))
do_retry-bounds_example = do_retry-bounds env cfg flaky 2

do_retry-waits_example :
    (rest : List ℤ) × ((do_retry env cfg flaky 2).waits
      ≡ defaulted cfg.base_delay default_base ∷ rest)
    × AllWithin (defaulted cfg.max_delay default_max) rest
do_retry-waits_example = do_retry-waits env cfg flaky 1 refl refl 2 (external "503") refl refl

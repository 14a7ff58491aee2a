-- ===== src/Base/Errors.antt =====
-- How a Go call that returns `(T, error)` and may panic comes back.
use Prim.Native.Nat.{ℕ}
use Prim.Native.String.{String}

-- The error values of the engine: the sentinels, the wrappers and what the outside reports.
pub data Error : Type 0 where
  scheduler_closed no_available_provider context_done : Error
  all_providers_failed retry_cancelled primary_failed : Error → Error
  retries_exhausted : ℕ → Error → Error
  provider_panic hook_panic : String → Error
  too_few_providers : ℕ → Error
  both_failed : String → String → Error
  provider_not_found : String → Error
  external : String → Error

-- `ok a` is `(a, nil)`, `err e` is `(nil, e)`, `panic r` a panic with the value `r`.
pub data Outcome {ℓ} (A : Type ℓ) : Type ℓ where
  ok : A → Outcome A
  err : Error → Outcome A
  panic : String → Outcome A

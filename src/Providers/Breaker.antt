-- ===== src/Providers/Breaker.antt =====
-- providers/providers.go: the circuit breaker of BaseProvider. A time is a number of nanoseconds;
-- failCount is an int32, kept here by its 32 bits.
pub mod Streak
mod Tests
use ao_eo.Base.{
  ℕ, ◌+◌, ◌-◌, ◌%◌, ◌^◌, String, Bool, true, false, not, ◌&&◌, List, [], ◌∷◌, ltb, leb, ◌==◌,
  if◌then◌else◌, str_eq, ℤ, pos, negsuc, pos_part, is_nonpos, ltb_ℤ,
}
use ao_eo.Core.Pricing.{Pricing}

-- core/config.go: ProviderConfig, less the settings of its HTTP client
pub record ProviderConfig : Type 0 where
  pub name : String
  pub api_key : String
  pub endpoint : String
  pub model : String
  pub max_concurrent : ℤ
  pub pricing : Pricing
  pub max_failures : ℤ
  pub cooldown_duration : ℤ

pub data Event : Type 0 where
  provider_recover : String → Event
  provider_fail provider_open : String → ℤ → Event

-- `fail_until` is 0 outside a cooldown.
pub record Breaker : Type 0 where
  pub fail_count : ℕ
  pub fail_until : ℕ

abbrev pub closed_breaker : Breaker
closed_breaker = record { fail_count = 0; fail_until = 0 }

-- int32 of 32 bits
unfoldable pub int32 : ℕ → ℤ
int32 n = if ltb n (2 ^ 31) then pos n else negsuc (2 ^ 32 - 1 - n)

unfoldable pub max_failures : ProviderConfig → ℤ
max_failures cfg = if is_nonpos cfg.max_failures then pos 3 else cfg.max_failures

-- in nanoseconds; 60 * time.Second
unfoldable pub cooldown : ProviderConfig → ℕ
cooldown cfg =
    if is_nonpos cfg.cooldown_duration then 60_000_000_000 else pos_part cfg.cooldown_duration

-- RecordSuccess, and the events that it emits
unfoldable pub record_success : ProviderConfig → Breaker → Breaker × List Event
unfolding int32
record_success cfg b = (
  record { fail_count = 0; fail_until = 0 },
  if ltb_ℤ (pos 0) (int32 b.fail_count) then provider_recover cfg.name ∷ [] else [],
)

-- int(count) >= maxFailures
unfoldable pub opens : ProviderConfig → ℕ → Bool
unfolding int32 max_failures
opens cfg count = not (ltb_ℤ (int32 count) (max_failures cfg))

-- RecordFailure at time `now`
unfoldable pub record_failure : ProviderConfig → ℕ → Breaker → Breaker × List Event
unfolding opens cooldown
record_failure cfg now b =
    let count = (b.fail_count + 1) % 2 ^ 32 in
    if opens cfg count
    then (
      record { fail_count = count; fail_until = now + cooldown cfg },
      provider_fail cfg.name (int32 count) ∷ provider_open cfg.name (int32 count) ∷ [],
    )
    else (
      record { fail_count = count; fail_until = b.fail_until },
      provider_fail cfg.name (int32 count) ∷ [],
    )

unfoldable pub is_configured : ProviderConfig → Bool
is_configured cfg =
    not (str_eq cfg.api_key "") && not (str_eq cfg.endpoint "") && not (str_eq cfg.model "")

-- IsAvailable at time `now`
unfoldable pub is_available : ProviderConfig → ℕ → Breaker → Bool
unfolding is_configured
is_available cfg now b =
    if is_configured cfg then (if b.fail_until == 0 then true else leb b.fail_until now) else false

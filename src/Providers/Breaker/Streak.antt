-- ===== src/Providers/Breaker/Streak.antt =====
-- providers/providers.go: the circuit breaker opens on a streak of failures and closes on a success.
use ao_eo.Base.{
  ℕ, suc, ◌+◌, ◌%◌, ◌^◌, ◌≤◌, ◌<◌, ◌≡◌, refl, ◌∙◌, ◌↔◌, ◌⊎◌, inl, inr, true, false, List, [], ◌∷◌,
  length, leb, lt→ltb, if◌then◌else◌, pos_part, neg_part, arith, Bool-cases,
}
use native.Mathlib.Nat.{mod-eq_of_lt}
use ao_eo.Providers.Breaker.{
  ProviderConfig, Breaker, closed_breaker, int32, max_failures, cooldown, record_success, opens,
  record_failure, is_configured, is_available,
}

-- What the scheduler reports of a provider.
pub data Report : Type 0 where
  succeeded : Report
  failed_at : ℕ → Report

abbrev pub report : ProviderConfig → Report → Breaker → Breaker
report cfg succeeded b = (record_success cfg b).0
report cfg (failed_at now) b = (record_failure cfg now b).0

-- The breaker after the reports, of which the newest is the first.
abbrev pub after_reports : ProviderConfig → List Report → Breaker
after_reports cfg [] = closed_breaker
after_reports cfg (r ∷ older) = report cfg r (after_reports cfg older)

-- How many failures there were since the last success
abbrev pub streak : List Report → ℕ
streak [] = 0
streak (succeeded ∷ older) = 0
streak (failed_at now ∷ older) = suc (streak older)

abbrev pub last_failure : List Report → ℕ
last_failure [] = 0
last_failure (succeeded ∷ older) = 0
last_failure (failed_at now ∷ older) = now

abbrev pub threshold : ProviderConfig → ℕ
threshold cfg = pos_part (max_failures cfg)

streak-length : (rs : List Report) → streak rs ≤ length rs
streak-length [] = omega arith
streak-length (succeeded ∷ older) = omega arith
streak-length (failed_at now ∷ older) = omega (arith, streak-length older)

max_failures-pos : (cfg : ProviderConfig) → (0 < threshold cfg) × (neg_part (max_failures cfg) ≡ 0)
unfolding max_failures
max_failures-pos cfg = ground arith

cooldown-pos : (cfg : ProviderConfig) → 0 < cooldown cfg
unfolding cooldown
cooldown-pos cfg = ground arith

opens-streak : (cfg : ProviderConfig) (n : ℕ) → n < 2 ^ 31 → opens cfg n ≡ leb (threshold cfg) n
unfolding opens int32
opens-streak cfg n h = let m = max_failures-pos cfg in rw (lt→ltb n (2 ^ 31) h) (ground (arith, m))

pub record Follows (cfg : ProviderConfig) (rs : List Report) (b : Breaker) : Type 0 where
  pub counted : b.fail_count ≡ streak rs
  pub until :
      b.fail_until ≡ (if leb (threshold cfg) (streak rs) then last_failure rs + cooldown cfg else 0)

record_failure-Follows :
    (cfg : ProviderConfig) (now : ℕ) (rs : List Report) (b : Breaker)
    → suc (streak rs) < 2 ^ 31
    → Follows cfg rs b
    → Follows cfg (failed_at now ∷ rs) (record_failure cfg now b).0
unfolding record_failure
record_failure-Follows cfg now rs b h f =
    let count : (b.fail_count + 1) % 2 ^ 32 ≡ suc (streak rs) =
      mod-eq_of_lt (omega (arith, f.counted)) ∙ omega (arith, f.counted) in
    rw (count, opens-streak cfg (suc (streak rs)) h)
      (elim (Bool-cases (leb (threshold cfg) (suc (streak rs)))) [
        | inl e ↦ rw e (record { counted = refl; until = rw e refl })
        | inr e ↦
            let still : leb (threshold cfg) (streak rs) ≡ false = ground arith in
            rw e (record { counted = refl; until = rw e (f.until ∙ rw still refl) })
      ])

unopened :
    (cfg : ProviderConfig) (t : ℕ) → 0 ≡ (if leb (threshold cfg) 0 then t + cooldown cfg else 0)
unopened cfg t = ground (arith, max_failures-pos cfg)

after_reports-Follows :
    (cfg : ProviderConfig) (rs : List Report)
    → length rs < 2 ^ 31
    → Follows cfg rs (after_reports cfg rs)
unfolding record_success
after_reports-Follows cfg [] h = record { counted = refl; until = unopened cfg 0 }
after_reports-Follows cfg (succeeded ∷ rs) h = record { counted = refl; until = unopened cfg 0 }
after_reports-Follows cfg (failed_at now ∷ rs) h =
    record_failure-Follows cfg now rs _ (omega (arith, streak-length rs))
      (after_reports-Follows cfg rs (omega arith))

-- After fewer than 2 ^ 31 reports, a provider is available exactly when its configuration is
-- complete and either the failures since the last success are fewer than the threshold, or the
-- cooldown after the last failure is over.
pub is_available-after_reports :
    (cfg : ProviderConfig) (rs : List Report) (now : ℕ)
    → length rs < 2 ^ 31
    → (is_available cfg now (after_reports cfg rs) ≡ true) ↔ (
        (is_configured cfg ≡ true)
        × ((streak rs < threshold cfg) ⊎ (last_failure rs + cooldown cfg ≤ now)))
unfolding is_available
is_available-after_reports cfg rs now h =
    let f = after_reports-Follows cfg rs h in
    let c = cooldown-pos cfg in
    elim (Bool-cases (leb (threshold cfg) (streak rs))) [
      | inl e ↦
          let until : (after_reports cfg rs).fail_until ≡ last_failure rs + cooldown cfg =
            f.until ∙ rw e refl in
          rw until (ground (arith, c))
      | inr e ↦
          let until : (after_reports cfg rs).fail_until ≡ 0 = f.until ∙ rw e refl in
          rw until (ground (arith, c))
    ]

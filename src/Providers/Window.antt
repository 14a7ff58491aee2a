-- ===== src/Providers/Window.antt =====
-- providers/providers.go: the health window of BaseProvider, a ring of the last 20 observations. The
-- times of the observations are left out, and a success rate is the quotient of two counts.
pub mod Snapshot
mod Tests
use ao_eo.Base.{
  ℕ, zero, suc, ◌+◌, ◌-◌, ◌/◌, ◌%◌, Bool, true, false, List, get_or, replicate, Ring, ring_write,
  ltb, if◌then◌else◌,
}
use ao_eo.Core.Router.{ProviderHealth}

-- healthEntry
pub record HealthEntry : Type 0 where
  pub latency_ms : ℕ
  pub success : Bool

abbrev pub zero_entry : HealthEntry
zero_entry = record { latency_ms = 0; success = false }

-- len(b.healthWindow)
abbrev pub window_size : ℕ
window_size = 20

-- healthWindow, healthHead, healthCount and healthLatest
pub record HealthState : Type 0 where
  pub window : Ring HealthEntry
  pub latest : ProviderHealth

abbrev pub new_health : HealthState
new_health = record {
  window = record { buf = replicate window_size zero_entry; head = 0; count = 0 };
  latest = record {
    last_latency_ms = 0;
    avg_latency_ms = 0;
    successes = 0;
    checks = 0;
    consecutive_fails = 0;
  };
}

-- b.healthWindow[(b.healthHead - b.healthCount + i + 20) % 20]
unfoldable pub window_at : Ring HealthEntry → ℕ → HealthEntry
window_at r i = get_or r.buf ((r.head + i + window_size - r.count) % window_size) zero_entry

-- The local variables of the loop: totalLatency, successCount, consecutiveFails, lastFailStreak
pub record Tally : Type 0 where
  pub total : ℕ
  pub successes : ℕ
  pub worst : ℕ
  pub streak : ℕ

-- The body of the loop
unfoldable pub count_entry : HealthEntry → Tally → Tally
count_entry e t =
    if e.success
    then record {
      total = t.total + e.latency_ms;
      successes = t.successes + 1;
      worst = t.worst;
      streak = 0;
    }
    else record {
      total = t.total + e.latency_ms;
      successes = t.successes;
      worst = if ltb t.worst (t.streak + 1) then t.streak + 1 else t.worst;
      streak = t.streak + 1;
    }

-- The variables after n rounds, from the oldest entry on
unfoldable pub scan_window : Ring HealthEntry → ℕ → Tally
unfolding window_at count_entry
scan_window r zero = record { total = 0; successes = 0; worst = 0; streak = 0 }
scan_window r (suc i) = count_entry (window_at r i) (scan_window r i)

-- max(b.healthCount, 1)
abbrev pub at_least_one : ℕ → ℕ
at_least_one n = if ltb n 1 then 1 else n

-- pushHealthEntry
unfoldable pub push_health_entry : HealthEntry → HealthState → HealthState
unfolding ring_write scan_window
push_health_entry e s =
    let window = ring_write zero_entry window_size e s.window in
    let t = scan_window window window.count in
    record {
      window = window;
      latest = record {
        last_latency_ms = e.latency_ms;
        avg_latency_ms = t.total / at_least_one window.count;
        successes = t.successes;
        checks = window.count;
        consecutive_fails = t.worst;
      };
    }

-- RecordHealthCheck; RecordCallResult is the same with err == nil for the success.
unfoldable pub record_health_check : ℕ → Bool → HealthState → HealthState
unfolding push_health_entry
record_health_check latency_ms success s =
    push_health_entry (record { latency_ms = latency_ms; success = success }) s

-- Health
unfoldable pub health : HealthState → ProviderHealth
health s = s.latest

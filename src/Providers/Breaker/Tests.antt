-- ===== src/Providers/Breaker/Tests.antt =====
-- providers/providers.go: a breaker that three failures open.
use ao_eo.Base.{◌+◌, ◌≡◌, ◌≤◌, ◌<◌, ◌↔◌, ◌⊎◌, List, [], ◌∷◌, true, pos, arith}
use ao_eo.Providers.Breaker.{ProviderConfig, is_configured, is_available, cooldown}
use ao_eo.Providers.Breaker.Streak.{
  Report, succeeded, failed_at, after_reports, streak, threshold, last_failure,
  is_available-after_reports,
}

abbrev config : ProviderConfig
config = record {
  name = "kimi";
  api_key = "k";
  endpoint = "e";
  model = "m";
  max_concurrent = pos 1;
  pricing = record { prompt_per_1k = pos 0; completion_per_1k = pos 0; currency = "" };
  max_failures = pos 0;
  cooldown_duration = pos 10;
}

abbrev reports : List Report
reports = failed_at 30 ∷ failed_at 20 ∷ failed_at 15 ∷ succeeded ∷ failed_at 5 ∷ []

is_available-after_reports_example :
    (is_available config 35 (after_reports config reports) ≡ true) ↔ (
      (is_configured config ≡ true)
      × ((streak reports < threshold config) ⊎ (last_failure reports + cooldown config ≤ 35)))
is_available-after_reports_example = is_available-after_reports config reports 35 (omega arith)

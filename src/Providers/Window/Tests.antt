-- ===== src/Providers/Window/Tests.antt =====
-- providers/providers.go: three observations, of which the middle one failed.
use ao_eo.Base.{ℕ, ◌≡◌, refl, Bool, true, false, [], ◌∷◌, take}
use ao_eo.Providers.Window.{HealthEntry, window_size, push_health_entry, health}
use ao_eo.Providers.Window.Snapshot.{observed, Describes, health-Describes}

abbrev seen : ℕ → Bool → HealthEntry
seen latency_ms success = record { latency_ms = latency_ms; success = success }

health-Describes_example :
    Describes
      (take window_size (seen 10 true ∷ seen 20 false ∷ seen 31 true ∷ []))
      (seen 10 true)
      (health (observed (seen 10 true ∷ seen 20 false ∷ seen 31 true ∷ [])))
health-Describes_example = health-Describes (seen 10 true) (seen 20 false ∷ seen 31 true ∷ [])

average : (health (observed (seen 10 true ∷ seen 20 false ∷ seen 31 true ∷ []))).avg_latency_ms ≡ 20
unfolding push_health_entry health
average = refl

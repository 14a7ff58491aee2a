-- ===== src/Providers/Window/Snapshot.antt =====
-- providers/providers.go: what the health snapshot says of the last 20 observations.
use Prim.Native.Nat.{max}
use ao_eo.Base.{
  ℕ, zero, suc, ◌+◌, ◌-◌, ◌/◌, ◌%◌, ◌≤◌, ◌<◌, ◌≡◌, refl, ap, sym, ◌∙◌, List, [], ◌∷◌, length,
  get_or, take, drop, length-take, length-replicate, Ring, ring_at, Holds, ring_write-Holds,
  if◌then◌else◌, arith,
}
use ao_eo.Core.Router.{ProviderHealth}
use ao_eo.Providers.Window.{
  HealthEntry, HealthState, Tally, zero_entry, window_size, new_health, window_at, count_entry,
  scan_window, at_least_one, push_health_entry, health,
}

-- Observations, newest first
abbrev pub observed : List HealthEntry → HealthState
observed [] = new_health
observed (e ∷ older) = push_health_entry e (observed older)

abbrev pub sum_latency : List HealthEntry → ℕ
sum_latency [] = 0
sum_latency (e ∷ older) = e.latency_ms + sum_latency older

abbrev pub success_count : List HealthEntry → ℕ
success_count [] = 0
success_count (e ∷ older) = if e.success then suc (success_count older) else success_count older

-- How many observations from the newest on are failures
abbrev pub failing : List HealthEntry → ℕ
failing [] = 0
failing (e ∷ older) = if e.success then 0 else suc (failing older)

-- The longest run of failures anywhere
abbrev pub longest_run : List HealthEntry → ℕ
longest_run [] = 0
longest_run (e ∷ older) = max (failing (e ∷ older)) (longest_run older)

-- The loop, over a list with the newest first
abbrev tally : List HealthEntry → Tally
tally [] = record { total = 0; successes = 0; worst = 0; streak = 0 }
tally (e ∷ older) = count_entry e (tally older)

tally-total : (es : List HealthEntry) → (tally es).total ≡ sum_latency es
unfolding count_entry
tally-total [] = refl
tally-total (e ∷ older) = ground (arith, tally-total older)

tally-successes : (es : List HealthEntry) → (tally es).successes ≡ success_count es
unfolding count_entry
tally-successes [] = refl
tally-successes (e ∷ older) = ground (arith, tally-successes older)

tally-streak : (es : List HealthEntry) → (tally es).streak ≡ failing es
unfolding count_entry
tally-streak [] = refl
tally-streak (e ∷ older) = ground (arith, tally-streak older)

tally-worst : (es : List HealthEntry) → (tally es).worst ≡ longest_run es
unfolding count_entry
tally-worst [] = refl
tally-worst (e ∷ older) = ground (arith, tally-worst older, tally-streak older)

observed-Holds : (log : List HealthEntry) → Holds zero_entry window_size (observed log).window log
unfolding push_health_entry
observed-Holds [] = record {
  size_pos = omega arith;
  full_array = length-replicate window_size zero_entry;
  head_lt = omega arith;
  counted = omega arith;
  entries = λ i h. absurd (omega arith);
}
observed-Holds (e ∷ older) =
    ring_write-Holds zero_entry window_size e (observed older).window older (observed-Holds older)

window_at-ring_at :
    (r : Ring HealthEntry) (i j : ℕ)
    → i + j + 1 ≡ r.count
    → r.count ≤ window_size
    → window_at r i ≡ ring_at zero_entry window_size r j
unfolding window_at ring_at
window_at-ring_at r i j e h = ap (λ k. get_or r.buf (k % window_size) zero_entry) (omega arith)

drop-next :
    (n : ℕ) (es : List HealthEntry)
    → n < length es
    → drop n es ≡ get_or es n zero_entry ∷ drop (suc n) es
drop-next n [] h = absurd (omega arith)
drop-next zero (e ∷ es) h = refl
drop-next (suc n) (e ∷ es) h = drop-next n es (omega arith)

get_or-take :
    (n i : ℕ) (es : List HealthEntry)
    → i < n
    → get_or (take n es) i zero_entry ≡ get_or es i zero_entry
get_or-take zero i es h = absurd (omega arith)
get_or-take (suc n) i [] h = refl
get_or-take (suc n) zero (e ∷ es) h = refl
get_or-take (suc n) (suc i) (e ∷ es) h = get_or-take n i es (omega arith)

drop-all : (n : ℕ) (es : List HealthEntry) → length es ≤ n → drop n es ≡ []
drop-all zero [] h = refl
drop-all (suc n) [] h = refl
drop-all zero (e ∷ es) h = absurd (omega arith)
drop-all (suc n) (e ∷ es) h = drop-all n es (omega arith)

scan-tally :
    (r : Ring HealthEntry) (log : List HealthEntry) (i : ℕ)
    → Holds zero_entry window_size r log
    → i ≤ r.count
    → scan_window r i ≡ tally (drop (r.count - i) (take window_size log))
unfolding scan_window
scan-tally r log zero v h =
    rw
      (drop-all (r.count - 0) (take window_size log)
        (omega (arith, length-take window_size log, v.counted)))
      refl
scan-tally r log (suc i) v h =
    let j : ℕ = r.count - suc i in
    let next : r.count - i ≡ suc j = omega arith in
    let first : drop j (take window_size log)
        ≡ get_or (take window_size log) j zero_entry ∷ drop (suc j) (take window_size log) =
      drop-next j (take window_size log) (omega (arith, length-take window_size log, v.counted)) in
    let read : window_at r i ≡ get_or (take window_size log) j zero_entry =
      window_at-ring_at r i j (omega arith) (omega (arith, v.counted))
      ∙ v.entries j (omega arith)
      ∙ sym (get_or-take window_size j log (omega (arith, v.counted))) in
    let rest : scan_window r i ≡ tally (drop (suc j) (take window_size log)) =
      scan-tally r log i v (omega arith) ∙ ap (λ k. tally (drop k (take window_size log))) next in
    rw (read, rest, first) refl

scan-all :
    (r : Ring HealthEntry) (log : List HealthEntry)
    → Holds zero_entry window_size r log
    → scan_window r r.count ≡ tally (take window_size log)
scan-all r log v =
    let whole : r.count - r.count ≡ 0 = omega arith in
    scan-tally r log r.count v (omega arith) ∙ ap (λ k. tally (drop k (take window_size log))) whole

at_least_one-pos : (n : ℕ) → 0 < n → at_least_one n ≡ n
at_least_one-pos n h = ground arith

-- What the snapshot says of the observations in the window
pub record Describes (es : List HealthEntry) (newest : HealthEntry) (h : ProviderHealth)
    : Type 0 where
  pub checks : h.checks ≡ length es
  pub last_latency : h.last_latency_ms ≡ newest.latency_ms
  pub average : h.avg_latency_ms ≡ sum_latency es / length es
  pub successes : h.successes ≡ success_count es
  pub worst : h.consecutive_fails ≡ longest_run es

-- After any observations, Health describes the newest 20: their number, the latency of the newest,
-- the average latency rounded down, how many succeeded, and as ConsecutiveFails the longest run of
-- failures among them, which need not be the newest ones.
pub health-Describes :
    (e : HealthEntry) (older : List HealthEntry)
    → Describes (take window_size (e ∷ older)) e (health (observed (e ∷ older)))
unfolding push_health_entry health
health-Describes e older =
    let v = observed-Holds (e ∷ older) in
    let w = (observed (e ∷ older)).window in
    let es = take window_size (e ∷ older) in
    let all : scan_window w w.count ≡ tally es = scan-all w (e ∷ older) v in
    let number : w.count ≡ length es =
      omega (arith, length-take window_size (e ∷ older), v.counted) in
    let some_entry : at_least_one w.count ≡ length es =
      at_least_one-pos w.count (omega (arith, v.counted)) ∙ number in
    record {
      checks = number;
      last_latency = refl;
      average =
          ap (λ t. t.total / at_least_one w.count) all
          ∙ ap (λ n. n / at_least_one w.count) (tally-total es)
          ∙ ap (λ n. sum_latency es / n) some_entry;
      successes = ap (λ t. t.successes) all ∙ tally-successes es;
      worst = ap (λ t. t.worst) all ∙ tally-worst es;
    }

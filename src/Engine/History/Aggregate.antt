-- ===== src/Engine/History/Aggregate.antt =====
-- internal/engine/history.go: what Stats reports of each provider.
use ao_eo.Base.{
  ℕ, ◌+◌, ◌/◌, ◌≤◌, ◌≡◌, ◌≢◌, refl, ap, sym, ◌∙◌, String, Bool, true, false, not, List, [], ◌∷◌,
  length, Option, none, some, ltb, if◌then◌else◌, str_eq, arith, eq_iff, Bool-cases, lt→ltb, ◌<◌,
  inl, inr,
}
use ao_eo.Engine.History.{
  CallRecord, ProviderStats, StatsMap, History, in_memory, queried, keep_if, zero_stats, add_record,
  update, collect, averaged, average_all, stats,
}

abbrev pub lookup : String → StatsMap → Option ProviderStats
lookup name [] = none
lookup name ((k, st) ∷ rest) = if str_eq k name then some st else lookup name rest

abbrev pub of_provider : String → List CallRecord → List CallRecord
of_provider name rs = keep_if (λ r. str_eq r.provider name) rs

abbrev pub failed : CallRecord → Bool
failed r = not (str_eq r.error "")

abbrev pub sum_latency : List CallRecord → ℕ
sum_latency [] = 0
sum_latency (r ∷ rs) = r.latency_ms + sum_latency rs

abbrev pub AllWithin : ℕ → List CallRecord → Type 0
AllWithin top [] = Unit {0}
AllWithin top (r ∷ rs) = (r.latency_ms ≤ top) × AllWithin top rs

-- The statistics that a provider's records call for.
pub record Summary (mine : List CallRecord) (st : ProviderStats) : Type 0 where
  pub calls : st.total_calls ≡ length mine
  pub failures : st.failed_calls ≡ length (keep_if failed mine)
  pub latency : st.total_latency_ms ≡ sum_latency mine
  pub peak : AllWithin st.max_latency_ms mine
  pub average : st.avg_latency_ms ≡ sum_latency mine / length mine

-- A provider is reported exactly when it has records, and then with their summary.
abbrev pub Reported : Option ProviderStats → List CallRecord → Type 0
Reported none mine = mine ≡ []
Reported (some st) mine = (mine ≢ []) × Summary mine st

abbrev or_zero : Option ProviderStats → ProviderStats
or_zero none = zero_stats
or_zero (some st) = st

abbrev tally : ProviderStats → List CallRecord → ProviderStats
tally st [] = st
tally st (r ∷ rs) = tally (add_record r st) rs

abbrev after : Option ProviderStats → List CallRecord → Option ProviderStats
after o [] = o
after o (r ∷ rs) = some (tally (add_record r (or_zero o)) rs)

same-name : (a b c : String) → str_eq a b ≡ true → str_eq a c ≡ str_eq b c
same-name a b c h = ap (λ s. str_eq s c) ((eq_iff a b).0 h)

same-key : (a b c : String) → str_eq b c ≡ true → str_eq a c ≡ str_eq a b
same-key a b c h = ap (λ s. str_eq a s) (sym ((eq_iff b c).0 h))

after-some : (st : ProviderStats) (rs : List CallRecord) → after (some st) rs ≡ some (tally st rs)
after-some st [] = refl
after-some st (r ∷ rs) = refl

lookup-update_hit :
    (name : String) (k : String) (f : ProviderStats → ProviderStats) (m : StatsMap)
    → str_eq k name ≡ true
    → lookup name (update k f m) ≡ some (f (or_zero (lookup name m)))
unfolding update
lookup-update_hit name k f [] h = rw h refl
lookup-update_hit name k f ((k', st) ∷ rest) h = elim (Bool-cases (str_eq k' k)) [
  | inl e ↦ let e' : str_eq k' name ≡ true = same-name k' k name e ∙ h in rw (e, e') refl
  | inr e ↦
      let e' : str_eq k' name ≡ false = same-key k' k name h ∙ e in
      rw (e, e') (lookup-update_hit name k f rest h)
]

lookup-update_miss :
    (name : String) (k : String) (f : ProviderStats → ProviderStats) (m : StatsMap)
    → str_eq k name ≡ false
    → lookup name (update k f m) ≡ lookup name m
unfolding update
lookup-update_miss name k f [] h = rw h refl
lookup-update_miss name k f ((k', st) ∷ rest) h = elim (Bool-cases (str_eq k' k)) [
  | inl e ↦ let e' : str_eq k' name ≡ false = same-name k' k name e ∙ h in rw (e, e') refl
  | inr e ↦ rw (e, lookup-update_miss name k f rest h) refl
]

lookup-collect :
    (name : String) (rs : List CallRecord) (m : StatsMap)
    → lookup name (collect m rs) ≡ after (lookup name m) (of_provider name rs)
unfolding collect keep_if
lookup-collect name [] m = refl
lookup-collect name (r ∷ rs) m = elim (Bool-cases (str_eq r.provider name)) [
  | inl e ↦ rw e (
      lookup-collect name rs (update r.provider (add_record r) m)
      ∙ ap (λ o. after o (of_provider name rs))
          (lookup-update_hit name r.provider (add_record r) m e)
      ∙ after-some _ _)
  | inr e ↦ rw e (
      lookup-collect name rs (update r.provider (add_record r) m)
      ∙ ap (λ o. after o (of_provider name rs))
          (lookup-update_miss name r.provider (add_record r) m e))
]

abbrev averaged_option : Option ProviderStats → Option ProviderStats
averaged_option none = none
averaged_option (some st) = some (averaged st)

lookup-average_all :
    (name : String) (m : StatsMap) → lookup name (average_all m) ≡ averaged_option (lookup name m)
unfolding average_all
lookup-average_all name [] = refl
lookup-average_all name ((k, st) ∷ rest) = elim (Bool-cases (str_eq k name)) [
  | inl e ↦ rw e refl
  | inr e ↦ rw e (lookup-average_all name rest)
]

-- Counted on from statistics `st0`
record Counts (st0 : ProviderStats) (rs : List CallRecord) (st : ProviderStats) : Type 0 where
  pub calls : st.total_calls ≡ st0.total_calls + length rs
  pub failures : st.failed_calls ≡ st0.failed_calls + length (keep_if failed rs)
  pub latency : st.total_latency_ms ≡ st0.total_latency_ms + sum_latency rs
  pub rises : st0.max_latency_ms ≤ st.max_latency_ms
  pub peak : AllWithin st.max_latency_ms rs

tally-Counts : (st : ProviderStats) (rs : List CallRecord) → Counts st rs (tally st rs)
unfolding add_record keep_if
tally-Counts st [] = record {
  calls = omega arith;
  failures = omega arith;
  latency = omega arith;
  rises = omega arith;
  peak = tt;
}
tally-Counts st (r ∷ rs) =
    let rest = tally-Counts (add_record r st) rs in
    record {
      calls = omega (arith, rest.calls);
      failures = ground (arith, rest.failures);
      latency = omega (arith, rest.latency);
      rises = ground (arith, rest.rises);
      peak = (ground (arith, rest.rises), rest.peak);
    }

averaged-Summary :
    (mine : List CallRecord) (st : ProviderStats)
    → 0 < length mine
    → Counts zero_stats mine st
    → Summary mine (averaged st)
unfolding averaged
averaged-Summary mine st p all =
    let calls : st.total_calls ≡ length mine = omega (arith, all.calls) in
    let latency : st.total_latency_ms ≡ sum_latency mine = omega (arith, all.latency) in
    let some_calls : ltb 0 st.total_calls ≡ true = lt→ltb 0 st.total_calls (omega arith) in
    rw some_calls (record {
      calls = calls;
      failures = omega (arith, all.failures);
      latency = latency;
      peak = all.peak;
      average = ap (λ n. n / st.total_calls) latency ∙ ap (λ n. sum_latency mine / n) calls;
    })

counted-Reported : (rs : List CallRecord) → Reported (averaged_option (after none rs)) rs
counted-Reported [] = refl
counted-Reported (r ∷ rs) =
    (λ e. cc e, averaged-Summary (r ∷ rs) _ (omega arith) (tally-Counts zero_stats (r ∷ rs)))

-- With no storage, Stats reports a provider exactly when the ring has a record of it, and then with
-- the number of its records, of those with an error, the sum of their latencies, a maximum that
-- none exceeds, and the average, rounded down.
pub stats-Reported :
    (h : History) (name : String)
    → h.storage ≡ none
    → Reported (lookup name (stats h)) (of_provider name (in_memory h))
unfolding stats queried
stats-Reported h name e = rw e (
    rw (lookup-average_all name (collect [] (in_memory h)), lookup-collect name (in_memory h) [])
      (counted-Reported (of_provider name (in_memory h))))

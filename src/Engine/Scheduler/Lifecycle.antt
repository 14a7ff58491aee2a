-- ===== src/Engine/Scheduler/Lifecycle.antt =====
-- internal/engine/scheduler.go: how many slots a scheduler has, ApplyConfig and Close. The
-- providers' Close is a step of the world; a provider that has none is `none`.
use ao_eo.Base.{
  ℕ, ◌+◌, ◌≤◌, ◌<◌, ◌≡◌, refl, ◌∙◌, Bool, true, false, List, [], ◌∷◌, map, length, Option, none,
  some, Error, pos_part, is_nonpos, ◌==◌, if◌then◌else◌, str_eq, arith, ◌^◌, length-map,
}
use ao_eo.Engine.Semaphore.{Semaphore, Waiter, new_semaphore, set_max_conc, store_max}
use ao_eo.Engine.Semaphore.Wake.{Woken, set_max_conc-Woken}
use ao_eo.Engine.History.{History, close}
use ao_eo.Providers.Breaker.{ProviderConfig}

-- cfg.MaxConcurrent, or 2
unfoldable pub slots_of : ProviderConfig → ℕ
slots_of cfg = if is_nonpos cfg.max_concurrent then 2 else pos_part cfg.max_concurrent

-- The slots of the providers with a name; a nil provider is `none`.
unfoldable pub named_slots : List (Option ProviderConfig) → ℕ
unfolding slots_of
named_slots [] = 0
named_slots (none ∷ rest) = named_slots rest
named_slots (some cfg ∷ rest) =
    let others = named_slots rest in if str_eq cfg.name "" then others else slots_of cfg + others

abbrev pub or_four : ℕ → ℕ
or_four n = if n == 0 then 4 else n

-- NewScheduler: the semaphore that it makes
unfoldable pub initial_semaphore : List (Option ProviderConfig) → Semaphore
unfolding named_slots
initial_semaphore provs = new_semaphore (or_four (named_slots provs))

unfoldable pub total_slots : List ProviderConfig → ℕ
unfolding slots_of
total_slots [] = 0
total_slots (cfg ∷ rest) = slots_of cfg + total_slots rest

-- The fields that ApplyConfig sets. It makes a provider of each configuration.
pub record Configured (P : Type 0) : Type 0 where
  pub providers : List P
  pub provider_cfgs : List ProviderConfig
  pub cache_valid : Bool
  pub sem : Semaphore

-- ApplyConfig, with the waiters that the new capacity wakes
unfoldable pub apply_config :
    {P : Type 0}
    → (ProviderConfig → P)
    → List ProviderConfig
    → Configured P
    → Configured P × List Waiter
unfolding total_slots set_max_conc
apply_config create cfgs s =
    let resized = set_max_conc s.sem (or_four (total_slots cfgs)) in
    (
      record {
        providers = map create cfgs;
        provider_cfgs = cfgs;
        cache_valid = false;
        sem = resized.0;
      },
      resized.1,
    )

-- What Close changes; `checking` says that the health checks run.
pub record Closable (W : Type 0) : Type 0 where
  pub closed : Bool
  pub checking : Bool
  pub history : Option History
  pub world : W

abbrev pub Closer : Type 0 → Type 0
Closer W = Option (W → Option Error × W)

abbrev pub earlier : Option Error → Option Error → Option Error
earlier none e = e
earlier (some e) later = some e

-- The loop over the providers, with firstErr
unfoldable pub close_all : {W : Type 0} → List (Closer W) → Option Error → W → Option Error × W
close_all [] first w = (first, w)
close_all (none ∷ rest) first w = close_all rest first w
close_all (some c ∷ rest) first w = close_all rest (earlier first (c w).0) (c w).1

abbrev pub close_history : Option History → Option History
close_history none = none
close_history (some h) = some (close h)

-- Close
unfoldable pub close_scheduler :
    {W : Type 0} → List (Closer W) → Closable W → Option Error × Closable W
unfolding close_all close
close_scheduler cs s =
    let done = close_all cs none s.world in
    if s.closed then (none, s) else (
      done.0,
      record { closed = true; checking = false; history = close_history s.history; world = done.1 },
    )

slots_of-pos : (cfg : ProviderConfig) → 0 < slots_of cfg
unfolding slots_of
slots_of-pos cfg = ground arith

total_slots-length : (cfgs : List ProviderConfig) → length cfgs ≤ total_slots cfgs
unfolding total_slots
total_slots-length [] = omega arith
total_slots-length (cfg ∷ rest) = omega (arith, total_slots-length rest, slots_of-pos cfg)

-- With inUse below 2^32, ApplyConfig makes one provider of each configuration, drops the cache, and
-- gives the semaphore as capacity the sum of their slots, at least one for each, or four where there
-- is none; the waiters for which the new capacity has room are woken, from the front.
pub apply_config-Woken :
    {P : Type 0} (create : ProviderConfig → P) (cfgs : List ProviderConfig) (s : Configured P)
    → s.sem.in_use < 2 ^ 32
    → (length (apply_config create cfgs s).0.providers ≡ length cfgs)
      × ((apply_config create cfgs s).0.cache_valid ≡ false)
      × (length cfgs ≤ or_four (total_slots cfgs))
      × (0 < or_four (total_slots cfgs))
      × Woken
          (store_max s.sem (or_four (total_slots cfgs)))
          s.sem.waiters
          (apply_config create cfgs s).0.sem
          (apply_config create cfgs s).1
unfolding apply_config
apply_config-Woken create cfgs s h = (
  length-map cfgs create,
  refl,
  least,
  ground arith,
  set_max_conc-Woken s.sem (or_four (total_slots cfgs)) h,
)
  where
    least : length cfgs ≤ or_four (total_slots cfgs)
    least = ground (arith, total_slots-length cfgs)

abbrev pub listed : Option Error → List Error → List Error
listed none es = es
listed (some e) es = e ∷ es

abbrev pub head_of : List Error → Option Error
head_of [] = none
head_of (e ∷ es) = some e

listed-earlier :
    (first o : Option Error) (es : List Error)
    → earlier (earlier first o) (head_of es) ≡ earlier first (head_of (listed o es))
listed-earlier none none es = refl
listed-earlier none (some e) es = refl
listed-earlier (some e) o es = refl

-- The errors of the providers' Close, in the order in which they are closed
abbrev pub close_errors : {W : Type 0} → List (Closer W) → W → List Error
close_errors [] w = []
close_errors (none ∷ rest) w = close_errors rest w
close_errors (some c ∷ rest) w = listed (c w).0 (close_errors rest (c w).1)

close_all-earlier :
    {W : Type 0} (cs : List (Closer W)) (first : Option Error) (w : W)
    → (close_all cs first w).0 ≡ earlier first (head_of (close_errors cs w))
unfolding close_all
close_all-earlier [] none w = refl
close_all-earlier [] (some e) w = refl
close_all-earlier (none ∷ rest) first w = close_all-earlier rest first w
close_all-earlier (some c ∷ rest) first w =
    close_all-earlier rest (earlier first (c w).0) (c w).1
    ∙ listed-earlier first (c w).0 (close_errors rest (c w).1)

if-false : {A : Type 0} (c : Bool) (x y : A) → c ≡ false → (if c then x else y) ≡ y
if-false true x y e = absurd (cc e)
if-false false x y e = refl

-- Close closes every provider in turn, though some fail, and returns the first of their errors; the
-- history is closed and the health checks are stopped. A second Close changes nothing and returns
-- no error.
pub close_scheduler-once :
    {W : Type 0} (cs : List (Closer W)) (s : Closable W)
    → s.closed ≡ false
    → let done = close_scheduler cs s in
      (done.0 ≡ head_of (close_errors cs s.world))
      × (done.1.closed ≡ true)
      × (done.1.checking ≡ false)
      × (done.1.history ≡ close_history s.history)
      × (close_scheduler cs done.1 ≡ (none, done.1))
unfolding close_scheduler
close_scheduler-once {W} cs s h =
    let done : Option Error × Closable W = (
      (close_all cs none s.world).0,
      record {
        closed = true;
        checking = false;
        history = close_history s.history;
        world = (close_all cs none s.world).1;
      },
    ) in
    let e : close_scheduler cs s ≡ done = if-false s.closed (none, s) done h in
    rw e (close_all-earlier cs none s.world, refl, refl, refl, refl)

-- ===== src/Engine/History.antt =====
-- internal/engine/history.go: the ring of recent calls, and the bounded queue to the storage. Times
-- and latencies are numbers and costs are counted in millionths, exactly. A query of the storage
-- that fails is `none`.
pub mod Log
pub mod Aggregate
mod Tests
use ao_eo.Base.{
  ℕ, zero, suc, ◌+◌, ◌/◌, String, Bool, true, false, List, [], ◌∷◌, ◌++◌, length, replicate, Option,
  none, some, Outcome, ok, panic, Ring, ring_write, ring_list, ltb, if◌then◌else◌, str_eq, ℤ, pos,
  negsuc, ◌+ℤ◌, not,
}
use ao_eo.Core.Types.{Request, Response}

pub record CallRecord : Type 0 where
  pub id : String
  pub provider : String
  pub model : String
  pub request : Option Request
  pub response : Option Response
  pub error : String
  pub latency_ms : ℕ
  pub timestamp : ℕ
  pub tags : List String
  pub fallback_from : String
  pub cost : ℤ
  pub currency : String

-- CallRecord{}
abbrev pub zero_record : CallRecord
zero_record = record {
  id = "";
  provider = "";
  model = "";
  request = none;
  response = none;
  error = "";
  latency_ms = 0;
  timestamp = 0;
  tags = [];
  fallback_from = "";
  cost = pos 0;
  currency = "";
}

-- ProviderStats, whose name is the key; `avg_latency_ms` is filled in at the end.
pub record ProviderStats : Type 0 where
  pub provider : String
  pub total_calls : ℕ
  pub failed_calls : ℕ
  pub total_latency_ms : ℕ
  pub avg_latency_ms : ℕ
  pub max_latency_ms : ℕ
  pub total_cost : ℤ
  pub currency : String

abbrev pub StatsMap : Type 0
StatsMap = List (String × ProviderStats)

-- The queries of core.Storage that the history makes: GetCalls, GetCallsByTag, GetCallsByProvider
-- and GetProviderStats.
pub record Storage : Type 0 where
  pub get_calls : ℕ → Option (List CallRecord)
  pub get_calls_by_tag : String → ℕ → Option (List CallRecord)
  pub get_calls_by_provider : String → ℕ → Option (List CallRecord)
  pub get_provider_stats : Option StatsMap

-- `closed` says that persistCh is closed, `queue` is what it holds, oldest first.
pub record History : Type 0 where
  pub ring : Ring CallRecord
  pub max_size : ℕ
  pub storage : Option Storage
  pub queue : List CallRecord
  pub closed : Bool

-- maxSize, with 100 for a size that is not positive
unfoldable pub ring_size : ℤ → ℕ
ring_size (pos zero) = 100
ring_size (pos (suc n)) = suc n
ring_size (negsuc n) = 100

abbrev pub empty_ring : ℕ → Ring CallRecord
empty_ring size = record { buf = replicate size zero_record; head = 0; count = 0 }

unfoldable pub new_history : ℤ → History
unfolding ring_size
new_history n = record {
  ring = empty_ring (ring_size n);
  max_size = ring_size n;
  storage = none;
  queue = [];
  closed = false;
}

unfoldable pub set_storage : Storage → History → History
set_storage s h = record h { storage = some s }

-- cap(persistCh)
abbrev pub queue_cap : ℕ
queue_cap = 256

unfoldable pub enqueue : CallRecord → History → History
enqueue r h = if ltb (length h.queue) queue_cap then record h { queue = h.queue ++ r ∷ [] } else h

-- The non-blocking send: it panics on a closed channel and drops the record when the queue is full.
unfoldable pub offer : CallRecord → History → Outcome (Unit {0}) × History
unfolding enqueue
offer r h = if h.closed then (panic "send on closed channel", h) else (ok tt, enqueue r h)

abbrev pub persist : Option Storage → CallRecord → History → Outcome (Unit {0}) × History
persist none r h = (ok tt, h)
persist (some s) r h = offer r h

-- History.Record
unfoldable pub record_call : CallRecord → History → Outcome (Unit {0}) × History
unfolding ring_write offer
record_call r h =
    persist h.storage r (record h { ring = ring_write zero_record h.max_size r h.ring })

-- persistWorker receives the oldest record, if there is one.
unfoldable pub worker_receive : History → History
worker_receive h = elim h.queue [ [] ↦ h | r ∷ rest ↦ record h { queue = rest } ]

unfoldable pub close : History → History
close h = record h { closed = true }

unfoldable pub clear : History → History
clear h = record h {
  ring = record { buf = replicate (length h.ring.buf) zero_record; head = 0; count = 0 };
}

-- The records of the ring, newest first: h.at(0), …, h.at(h.count - 1).
unfoldable pub in_memory : History → List CallRecord
unfolding ring_list
in_memory h = ring_list zero_record h.max_size h.ring 0 h.ring.count

-- What the storage answers, or else what memory gives
unfoldable pub queried {ℓ} : {A : Type ℓ} → Option Storage → (Storage → Option A) → A → A
queried none query fallback = fallback
queried (some s) query fallback = elim (query s) [ none ↦ fallback | some a ↦ a ]

unfoldable pub records : History → List CallRecord
unfolding queried in_memory
records h = queried h.storage (λ s. s.get_calls h.max_size) (in_memory h)

-- for _, t := range r.Tags { if t == tag
unfoldable pub has_tag : String → List String → Bool
has_tag tag [] = false
has_tag tag (t ∷ ts) = if str_eq t tag then true else has_tag tag ts

unfoldable pub keep_if : (CallRecord → Bool) → List CallRecord → List CallRecord
keep_if test [] = []
keep_if test (r ∷ rs) = let rest = keep_if test rs in if test r then r ∷ rest else rest

unfoldable pub records_by_tag : String → History → List CallRecord
unfolding queried in_memory has_tag keep_if
records_by_tag tag h =
    queried h.storage (λ s. s.get_calls_by_tag tag h.max_size)
      (keep_if (λ r. has_tag tag r.tags) (in_memory h))

unfoldable pub records_by_provider : String → History → List CallRecord
unfolding queried in_memory keep_if
records_by_provider name h =
    queried h.storage (λ s. s.get_calls_by_provider name h.max_size)
      (keep_if (λ r. str_eq r.provider name) (in_memory h))

-- stats[name]; a missing key gives the zero value.
abbrev pub zero_stats : ProviderStats
zero_stats = record {
  provider = "";
  total_calls = 0;
  failed_calls = 0;
  total_latency_ms = 0;
  avg_latency_ms = 0;
  max_latency_ms = 0;
  total_cost = pos 0;
  currency = "";
}

-- One record added to the statistics of its provider
unfoldable pub add_record : CallRecord → ProviderStats → ProviderStats
add_record r st = record {
  provider = r.provider;
  total_calls = st.total_calls + 1;
  failed_calls = if str_eq r.error "" then st.failed_calls else st.failed_calls + 1;
  total_latency_ms = st.total_latency_ms + r.latency_ms;
  avg_latency_ms = st.avg_latency_ms;
  max_latency_ms = if ltb st.max_latency_ms r.latency_ms then r.latency_ms else st.max_latency_ms;
  total_cost = st.total_cost +ℤ r.cost;
  currency = if str_eq st.currency "" then r.currency else st.currency;
}

-- stats[name] = f(stats[name])
unfoldable pub update : String → (ProviderStats → ProviderStats) → StatsMap → StatsMap
update name f [] = (name, f zero_stats) ∷ []
update name f ((k, st) ∷ rest) =
    if str_eq k name then (k, f st) ∷ rest else (k, st) ∷ update name f rest

unfoldable pub collect : StatsMap → List CallRecord → StatsMap
unfolding add_record update
collect m [] = m
collect m (r ∷ rs) = collect (update r.provider (add_record r) m) rs

unfoldable pub averaged : ProviderStats → ProviderStats
averaged st =
    if ltb 0 st.total_calls
    then record st { avg_latency_ms = st.total_latency_ms / st.total_calls }
    else st

unfoldable pub average_all : StatsMap → StatsMap
unfolding averaged
average_all [] = []
average_all ((k, st) ∷ rest) = (k, averaged st) ∷ average_all rest

-- History.Stats
unfoldable pub stats : History → StatsMap
unfolding queried in_memory collect average_all
stats h = queried h.storage (λ s. s.get_provider_stats) (average_all (collect [] (in_memory h)))

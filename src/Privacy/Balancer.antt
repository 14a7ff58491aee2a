-- ===== src/Privacy/Balancer.antt =====
-- privacy/model/loadbalancer.go: LoadBalancedClient. The backends are shared objects: an order of
-- attempts is a list of their indices. The sidecars, the clock and the random source stand for a
-- world `W`; the calls are taken one after the other, so that each compare-and-swap succeeds.
pub mod Orders
pub mod Failover
pub mod Checks
mod Tests
use ao_eo.Base.{
  ℕ, zero, suc, ◌+◌, ◌-◌, ◌%◌, ◌^◌, String, Bool, true, false, ◌&&◌, not, List, [], ◌∷◌, ◌++◌,
  length, get_elem?, get_or, set, take, drop, Option, none, some, ltb, ◌==◌, if◌then◌else◌,
  exchange_sort, modify, iota, Text,
}
use ao_eo.Core.Router.{add_one}
use ao_eo.Privacy.Endpoints.{split_endpoints}

pub data Strategy : Type 0 where
  round_robin random least_latency : Strategy

pub record Backend : Type 0 where
  pub endpoint : Text
  pub healthy : Bool
  pub last_err : Option String
  pub last_check : ℕ
  pub latency_ns : ℕ

-- The channel stopHC
pub data Channel : Type 0 where
  nil opened closed : Channel

pub record Balancer : Type 0 where
  pub backends : List Backend
  pub strategy : Strategy
  pub idx : ℕ
  pub hc_interval : ℕ
  pub auto_hc : Bool
  pub stop_hc : Channel
  pub close_done : Bool
  pub hc_started : Bool

-- What a sidecar answers: a value, or the text of an error.
pub data Answer (A : Type 0) : Type 0 where
  answered : A → Answer A
  failed : String → Answer A

pub record Span : Type 0 where
  pub label : String
  pub text : String
  pub start : ℕ
  pub end : ℕ

-- The HTTP clients of the backends, by index, the clock in nanoseconds, math/rand, and the
-- floating-point average of updateLatency.
pub record Sidecars (W : Type 0) : Type 0 where
  pub detect : ℕ → String → W → Answer (List Span) × W
  pub detect_batch : ℕ → List String → W → Answer (List (List Span)) × W
  pub health_check : ℕ → W → (Bool × Option String) × W
  pub now : W → ℕ
  pub intn : ℕ → W → ℕ × W
  pub ewma : ℕ → ℕ → ℕ

-- What Detect returns; `all_failed` carries the text of the last error, if there was one.
pub data Detected (A : Type 0) : Type 0 where
  detected : A → Detected A
  all_failed : Option String → Detected A

unfoldable pub new_backend : Text → Backend
new_backend ep = record {
  endpoint = ep;
  healthy = true;
  last_err = none;
  last_check = 0;
  latency_ns = 100_000_000;
}

unfoldable pub new_backends : List Text → List Backend
unfolding new_backend
new_backends [] = []
new_backends (ep ∷ eps) = new_backend ep ∷ new_backends eps

-- &LoadBalancedClient{}
unfoldable pub zero_balancer : Balancer
zero_balancer = record {
  backends = [];
  strategy = round_robin;
  idx = 0;
  hc_interval = 0;
  auto_hc = false;
  stop_hc = nil;
  close_done = false;
  hc_started = false;
}

-- NewLoadBalancedClientWithOptions, on the endpoints that splitEndpoints gives
unfoldable pub balancer_for : List Text → Strategy → ℕ → Bool → Balancer
unfolding zero_balancer new_backends
balancer_for [] strategy interval auto = zero_balancer
balancer_for (ep ∷ eps) strategy interval auto = record {
  backends = new_backends (ep ∷ eps);
  strategy = strategy;
  idx = 0;
  hc_interval = interval;
  auto_hc = auto;
  stop_hc = opened;
  close_done = false;
  hc_started = auto;
}

-- NewLoadBalancedClientWithOptions, with the values of its two options
unfoldable pub new_balancer : Text → Strategy → ℕ → Bool → Balancer
unfolding balancer_for split_endpoints
new_balancer endpoints = balancer_for (split_endpoints endpoints)

abbrev pub healthy_of : Option Backend → Bool
healthy_of none = false
healthy_of (some b) = b.healthy

abbrev pub healthy_at : List Backend → ℕ → Bool
healthy_at bs i = healthy_of (get_elem? bs i)

abbrev latency_of : Option Backend → ℕ
latency_of none = 0
latency_of (some b) = b.latency_ns

-- bes[i].latencyNs.Load() > bes[j].latencyNs.Load()
unfoldable pub slower : List Backend → ℕ → ℕ → Bool
slower bs i j = ltb (latency_of (get_elem? bs j)) (latency_of (get_elem? bs i))

-- The healthy ones, from index i on
unfoldable pub healthy_from : ℕ → List Backend → List ℕ
healthy_from i [] = []
healthy_from i (b ∷ bs) = let rest = healthy_from (i + 1) bs in if b.healthy then i ∷ rest else rest

unfoldable pub swap : List ℕ → ℕ → ℕ → List ℕ
swap xs i j = set (set xs i (get_or xs j 0)) j (get_or xs i 0)

-- int(lb.idx.Add(1)) % n, or 0 where that is negative; `v` is the new counter.
unfoldable pub start_index : ℕ → ℕ → ℕ
start_index v n = if ltb v (2 ^ 63) then v % n else 0

-- sortBackendsByLatency, or all of them where none is healthy
unfoldable pub by_latency : List Backend → List ℕ → List ℕ
unfolding exchange_sort slower
by_latency bs [] = iota 0 (length bs)
by_latency bs (i ∷ is) = exchange_sort (slower bs) (i ∷ is)

abbrev pub counted : Strategy → Balancer → Balancer
counted round_robin lb = record lb { idx = add_one lb.idx }
counted _ lb = lb

module _ {W : Type 0} (sc : Sidecars W) where
  -- for i := n - 1; i > 0; i-- { j := rand.Intn(i + 1); swap }
  unfoldable pub shuffle : ℕ → List ℕ → W → List ℕ × W
  unfolding swap
  shuffle zero xs w = (xs, w)
  shuffle (suc i) xs w =
      shuffle i (swap xs (suc i) (sc.intn (suc i + 1) w).0) (sc.intn (suc i + 1) w).1

  unfoldable pub order_by : Strategy → List Backend → ℕ → W → List ℕ × W
  unfolding by_latency shuffle start_index healthy_from
  order_by random bs v w = shuffle (length bs - 1) (iota 0 (length bs)) w
  order_by least_latency bs v w = (by_latency bs (healthy_from 0 bs), w)
  order_by round_robin bs v w =
      let start = start_index v (length bs) in
      (drop start (iota 0 (length bs)) ++ take start (iota 0 (length bs)), w)

  -- pickOrder
  unfoldable pub pick_order : Balancer → W → List ℕ × (Balancer × W)
  unfolding order_by add_one
  pick_order lb w =
      if length lb.backends == 0
      then ([], (lb, w))
      else let order = order_by lb.strategy lb.backends (add_one lb.idx) w in
        (order.0, (counted lb.strategy lb, order.1))

  -- updateLatency, by the time since the call was made
  unfoldable pub update_latency : ℕ → ℕ → List Backend → List Backend
  update_latency d i bs = modify bs i (λ b. record b { latency_ns = sc.ewma b.latency_ns d })

  unfoldable pub mark_failed : String → ℕ → List Backend → List Backend
  mark_failed e i bs = modify bs i (λ b. record b { healthy = false; last_err = some e })

  module _ {A : Type 0} (call : ℕ → W → Answer A × W) where
    -- The loop over the order, with the last error: what it returns, and the backends and the world
    -- after it
    unfoldable pub attempt :
        List ℕ → Option String → List Backend → W → Detected A × (List Backend × W)
    unfolding update_latency mark_failed
    attempt [] last bs w = (all_failed last, (bs, w))
    attempt (i ∷ rest) last bs w = elim (healthy_at bs i) [
      | false ↦ attempt rest last bs w
      | true ↦ elim (call i w).0 [
        | answered a ↦
            let d = sc.now (call i w).1 - sc.now w in
            (detected a, (update_latency d i bs, (call i w).1))
        | failed e ↦ attempt rest (some e) (mark_failed e i bs) (call i w).1
      ]
    ]

    unfoldable pub attempt_all : Balancer → W → Detected A × (Balancer × W)
    unfolding attempt pick_order
    attempt_all lb w =
        let (order, (lb', w')) = pick_order lb w in
        let (result, (bs, w'')) = attempt order none lb'.backends w' in
        (result, (record lb' { backends = bs }, w''))

  unfoldable pub detect : String → Balancer → W → Detected (List Span) × (Balancer × W)
  unfolding attempt_all
  detect text = attempt_all (λ i. sc.detect i text)

  unfoldable pub detect_batch :
      List String → Balancer → W → Detected (List (List Span)) × (Balancer × W)
  unfolding attempt_all
  detect_batch [] lb w = (detected [], (lb, w))
  detect_batch (t ∷ ts) lb w = attempt_all (λ i. sc.detect_batch i (t ∷ ts)) lb w

  -- One backend in runHealthChecks: lastErr is set where the check fails with an error, and cleared
  -- where the backend recovers.
  unfoldable pub checked : Bool → Option String → ℕ → Backend → Backend
  checked true e at_time b = record b {
    healthy = true;
    last_check = at_time;
    last_err = if b.healthy then b.last_err else none;
  }
  checked false e at_time b = record b {
    healthy = false;
    last_check = at_time;
    last_err = elim e [ none ↦ b.last_err | some s ↦ some s ];
  }

  -- runHealthChecks, from index i on; the warm-up requests have no effect here.
  unfoldable pub run_health_checks : ℕ → List Backend → W → List Backend × W
  unfolding checked
  run_health_checks i [] w = ([], w)
  run_health_checks i (b ∷ bs) w =
      let ((good, e), w') = sc.health_check i w in
      let (rest, w'') = run_health_checks (i + 1) bs w' in
      (checked good e (sc.now w') b ∷ rest, w'')

-- HealthCheck
unfoldable pub health_check : List Backend → Bool
health_check [] = false
health_check (b ∷ bs) = let rest = health_check bs in if b.healthy then true else rest

-- Close: `none` is a panic, for a channel that is nil or closed already. The Once counts as done
-- also after a panic.
unfoldable pub close_channel : Channel → Option Channel
close_channel nil = none
close_channel opened = some closed
close_channel closed = none

unfoldable pub close : Balancer → Option Balancer
unfolding close_channel
close lb = if lb.close_done then some lb else elim (close_channel lb.stop_hc) [
  | none ↦ none
  | some ch ↦ some (record lb { stop_hc = ch; close_done = true })
]

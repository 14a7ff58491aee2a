-- ===== src/Core/Router.antt =====
-- core/router.go: the strategies that choose a provider among the candidates. A candidate's
-- `ProviderStatus` is of core/types.go. An index of a Go slice is a number, and a `(int, error)`
-- result an `Outcome`.
pub mod Select
pub mod Turns
pub mod Ranking
mod Tests
use ao_eo.Base.{
  ℕ, zero, suc, ◌+◌, ◌-◌, ◌*◌, ◌%◌, ◌^◌, String, Bool, true, false, ◌&&◌, List, [], ◌∷◌, map,
  length, get_or, Outcome, ok, err, panic, Error, no_available_provider, external, ltb, leb, ◌==◌,
  if◌then◌else◌, str_eq, rotate_from, exchange_sort,
}

-- The health of a provider. `SuccessRate` is the quotient of two counts, `successes / checks`.
pub record ProviderHealth : Type 0 where
  pub last_latency_ms : ℕ
  pub avg_latency_ms : ℕ
  pub successes : ℕ
  pub checks : ℕ
  pub consecutive_fails : ℕ

pub record ProviderStatus : Type 0 where
  pub name : String
  pub available : Bool
  pub model : String
  pub health : ProviderHealth

-- for i, c := range candidates { if c.Available { seq = append(seq, i) } }
unfoldable pub available_from : ℕ → List ProviderStatus → List ℕ
available_from i [] = []
available_from i (c ∷ cs) =
    let rest = available_from (i + 1) cs in if c.available then i ∷ rest else rest

abbrev pub available_indices : List ProviderStatus → List ℕ
available_indices cs = available_from 0 cs

-- SingleProviderRouter.Select, from index i on
unfoldable pub single_from : String → ℕ → List ProviderStatus → Outcome ℕ
single_from name i [] = err (external "provider not available")
single_from name i (c ∷ cs) =
    if str_eq c.name name && c.available then ok i else single_from name (i + 1) cs

unfoldable pub single_select : String → List ProviderStatus → Outcome ℕ
unfolding single_from
single_select name cs = single_from name 0 cs

unfoldable pub single_sequence : String → List ProviderStatus → Outcome (List ℕ)
unfolding single_select
single_sequence name cs = elim (single_select name cs) [
  | ok i ↦ ok (i ∷ [])
  | err e ↦ err e
  | panic r ↦ panic r
]

-- PrimaryRouter.Select, from index i on
unfoldable pub primary_from : ℕ → List ProviderStatus → Outcome ℕ
primary_from i [] = err no_available_provider
primary_from i (c ∷ cs) = if c.available then ok i else primary_from (i + 1) cs

unfoldable pub primary_select : List ProviderStatus → Outcome ℕ
unfolding primary_from
primary_select cs = primary_from 0 cs

-- The sequence, or the error where no candidate is available.
unfoldable pub nonempty : List ℕ → Outcome (List ℕ)
nonempty [] = err no_available_provider
nonempty (i ∷ is) = ok (i ∷ is)

unfoldable pub primary_sequence : List ProviderStatus → Outcome (List ℕ)
unfolding available_from nonempty
primary_sequence cs = nonempty (available_indices cs)

abbrev pub u64_mod : ℕ
u64_mod = 2 ^ 64

-- `atomic.Uint64.Add(1)`: the new value.
unfoldable pub add_one : ℕ → ℕ
add_one c = (c + 1) % u64_mod

-- `int(v) % n` as an index: the conversion of an unsigned value is negative from 2^63 on, Go's
-- remainder keeps the sign, and a negative index panics.
unfoldable pub signed_index : ℕ → ℕ → Outcome ℕ
signed_index v n =
    if ltb v (2 ^ 63)
    then ok (v % n)
    else if (u64_mod - v) % n == 0
    then ok 0
    else panic "index out of range"

-- int(r.idx.Add(1)-1) % n
unfoldable pub turn_index : ℕ → ℕ → Outcome ℕ
unfolding signed_index add_one
turn_index c n = signed_index ((add_one c + u64_mod - 1) % u64_mod) n

-- RoundRobinRouter: the counter, and what a call returns beside the new counter.
unfoldable pub turn : List ℕ → ℕ → Outcome ℕ
unfolding turn_index
turn seq c = elim (turn_index c (length seq)) [
  | ok next ↦ ok (get_or seq next 0)
  | err e ↦ err e
  | panic r ↦ panic r
]

unfoldable pub round_robin_pick : List ℕ → ℕ → Outcome ℕ × ℕ
unfolding turn
round_robin_pick [] c = (err no_available_provider, c)
round_robin_pick (i ∷ is) c = (turn (i ∷ is) c, add_one c)

unfoldable pub round_robin_select : List ProviderStatus → ℕ → Outcome ℕ × ℕ
unfolding round_robin_pick available_from
round_robin_select cs c = round_robin_pick (available_indices cs) c

unfoldable pub rotated : List ℕ → ℕ → Outcome (List ℕ)
unfolding turn_index
rotated seq c = elim (turn_index c (length seq)) [
  | ok start ↦ ok (rotate_from 0 seq start 0 (length seq))
  | err e ↦ err e
  | panic r ↦ panic r
]

unfoldable pub round_robin_order : List ℕ → ℕ → Outcome (List ℕ) × ℕ
unfolding rotated
round_robin_order [] c = (err no_available_provider, c)
round_robin_order (i ∷ []) c = (ok (i ∷ []), c)
round_robin_order (i ∷ j ∷ is) c = (rotated (i ∷ j ∷ is) c, add_one c)

unfoldable pub round_robin_sequence : List ProviderStatus → ℕ → Outcome (List ℕ) × ℕ
unfolding round_robin_order available_from
round_robin_sequence cs c = round_robin_order (available_indices cs) c

-- float64, which the language's library defines: the operations that the scores use.
pub record Float64 : Type 1 where
  pub Value : Type 0
  pub of_int : ℕ → Value
  pub add : Value → Value → Value
  pub mul : Value → Value → Value
  pub div : Value → Value → Value
  pub lt : Value → Value → Bool
  pub le : Value → Value → Bool

pub data WeightStrategy : Type 0 where
  latency success_rate combined other : WeightStrategy

pub record Scored {ℓ} (V : Type ℓ) : Type ℓ where
  pub idx : ℕ
  pub score : V

module _ (f : Float64) where
  open f use {Value, of_int, add, mul, div, lt, le}

  unfoldable pub latency_score : ProviderHealth → Value
  latency_score h = div (of_int 1) (add (of_int 1) (div (of_int h.avg_latency_ms) (of_int 1000)))

  unfoldable pub rate : ProviderHealth → Value
  rate h = div (of_int h.successes) (of_int h.checks)

  unfoldable pub score : WeightStrategy → ProviderStatus → Value
  unfolding latency_score rate
  score latency c = latency_score c.health
  score success_rate c = rate c.health
  score combined c =
      add (mul (latency_score c.health) (div (of_int 1) (of_int 2)))
        (mul (rate c.health) (div (of_int 1) (of_int 2)))
  score other c = of_int 1

  unfoldable pub scored_from : WeightStrategy → ℕ → List ProviderStatus → List (Scored Value)
  unfolding score
  scored_from w i [] = []
  scored_from w i (c ∷ cs) =
      let rest = scored_from w (i + 1) cs in
      if c.available then record { idx = i; score = score w c } ∷ rest else rest

  abbrev pub higher : Scored Value → Scored Value → Bool
  higher a b = lt a.score b.score

  abbrev pub indices : List (Scored Value) → List ℕ
  indices = map (λ s. s.idx)

  -- WeightedRouter.SelectSequence
  unfoldable pub weighted_sequence : WeightStrategy → List ProviderStatus → Outcome (List ℕ)
  unfolding scored_from nonempty
  weighted_sequence w cs = nonempty (indices (exchange_sort higher (scored_from w 0 cs)))

  -- totalWeight, summed in the order of the candidates
  unfoldable pub total_weight : Value → List (Scored Value) → Value
  total_weight acc [] = acc
  total_weight acc (s ∷ ss) = total_weight (add acc s.score) ss

  -- the accumulating scan; the last entry where no partial sum reaches the target
  unfoldable pub scan : Value → Value → ℕ → List (Scored Value) → ℕ
  scan target accum last [] = last
  scan target accum last (s ∷ ss) =
      let rest = scan target (add accum s.score) s.idx ss in
      if le target (add accum s.score) then s.idx else rest

  -- float64(h*step%math.MaxUint64) / float64(math.MaxUint64) * totalWeight
  unfoldable pub target_of : ℕ → Value → Value
  target_of h total =
      mul (div (of_int (h * 0x9E3779B97F4A7C15 % u64_mod % (u64_mod - 1))) (of_int (u64_mod - 1)))
        total

  unfoldable pub weighted_turn : Scored Value → List (Scored Value) → Value → ℕ → Outcome ℕ × ℕ
  unfolding scan target_of add_one
  weighted_turn s [] total c = (ok s.idx, c)
  weighted_turn s (t ∷ ss) total c =
      (ok (scan (target_of (add_one c) total) (of_int 0) 0 (s ∷ t ∷ ss)), add_one c)

  unfoldable pub weighted_pick : List (Scored Value) → List ProviderStatus → ℕ → Outcome ℕ × ℕ
  unfolding total_weight weighted_turn round_robin_select
  weighted_pick [] cs c = (err no_available_provider, c)
  weighted_pick (s ∷ ss) cs c =
      let total = total_weight (of_int 0) (s ∷ ss) in
      if le total (of_int 0) then ((round_robin_select cs 0).0, c) else weighted_turn s ss total c

  -- WeightedRouter.Select, beside the new counter
  unfoldable pub weighted_select : WeightStrategy → List ProviderStatus → ℕ → Outcome ℕ × ℕ
  unfolding scored_from weighted_pick
  weighted_select w cs c = weighted_pick (scored_from w 0 cs) cs c

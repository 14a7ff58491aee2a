-- ===== src/Privacy/Balancer/Orders.antt =====
-- privacy/model/loadbalancer.go: the orders of attempts that pickOrder gives.
use mathlib.Core.List.{Mem, mem-cons, mem-append, not-mem-nil}
use mathlib.Core.List.Perm
use mathlib.Core.Logic.Or
use native.Mathlib.Nat.{zero-add}
use ao_eo.Base.{
  ℕ, zero, suc, ◌+◌, ◌-◌, ◌<◌, ◌≡◌, refl, ap, ◌∙◌, true, List, [], ◌∷◌, ◌++◌, length, get_elem?,
  get_or, set, take, drop, iota, some, arith, Bool-cases, inl, inr, ==_iff, ◌==◌, length-set,
  get_elem?-set_self, get_elem?-set_ne, take-append-drop, exchange_sort-perm,
}
use ao_eo.Privacy.Balancer.{
  Backend, Balancer, Sidecars, Strategy, round_robin, random, least_latency, healthy_at,
  healthy_from, slower, swap, by_latency, shuffle, order_by, pick_order, counted,
}

mem_of_get {ℓ} : {A : Type ℓ} {a : A} (xs : List A) (k : ℕ) → get_elem? xs k ≡ some a → Mem a xs
mem_of_get [] k h = cc
mem_of_get (x ∷ xs) zero h = mem-cons.1 (Or.inl (cc))
mem_of_get (x ∷ xs) (suc k) h = mem-cons.1 (Or.inr (mem_of_get xs k h))

get_elem?-iota : (k n i : ℕ) → i < n → get_elem? (iota k n) i ≡ some (k + i)
get_elem?-iota k zero i h = absurd (omega arith)
get_elem?-iota k (suc n) zero h = ap some (omega arith)
get_elem?-iota k (suc n) (suc i) h =
    get_elem?-iota (k + 1) n i (omega arith) ∙ ap some (omega arith)

length-iota : (k n : ℕ) → length (iota k n) ≡ n
length-iota k zero = refl
length-iota k (suc n) = ap suc (length-iota (k + 1) n)

get_or_of_get : (xs : List ℕ) (k : ℕ) {a : ℕ} → get_elem? xs k ≡ some a → get_or xs k 0 ≡ a
get_or_of_get [] k h = cc
get_or_of_get (x ∷ xs) zero h = cc
get_or_of_get (x ∷ xs) (suc k) h = get_or_of_get xs k h

length-swap : (xs : List ℕ) (i j : ℕ) → length (swap xs i j) ≡ length xs
unfolding swap
length-swap xs i j = length-set (set xs i _) j _ ∙ length-set xs i _

-- What stood at `k` stands somewhere after a swap.
swap-at :
    (xs : List ℕ) (i j k : ℕ) {a : ℕ}
    → i < length xs
    → j < length xs
    → get_elem? xs k ≡ some a
    → (k' : ℕ) × (get_elem? (swap xs i j) k' ≡ some a)
unfolding swap
swap-at xs i j k {a} p q h = elim (Bool-cases (i == k)) [
  | inl e ↦ (
    j,
    get_elem?-set_self (set xs i _) j _ (omega (arith, length-set xs i (get_or xs j 0)))
        ∙ ap some (get_or_of_get xs i (rw ((==_iff i k).0 e) h)),
  )
  | inr i_ne_k ↦ elim (Bool-cases (j == k)) [
    | inl e ↦ elim (Bool-cases (j == i)) [
      | inl f ↦ absurd (ground arith)
      | inr j_ne_i ↦ (
        i,
        get_elem?-set_ne (set xs i _) _ (ground arith)
            ∙ get_elem?-set_self xs i _ p
            ∙ ap some (get_or_of_get xs j (rw ((==_iff j k).0 e) h)),
      )
    ]
    | inr j_ne_k ↦ (
      k,
      get_elem?-set_ne (set xs i _) _ (ground arith) ∙ get_elem?-set_ne xs _ (ground arith) ∙ h,
    )
  ]
]

healthy_at-lt : (bs : List Backend) (i : ℕ) → healthy_at bs i ≡ true → i < length bs
healthy_at-lt [] i h = cc
healthy_at-lt (b ∷ bs) zero h = omega arith
healthy_at-lt (b ∷ bs) (suc i) h = omega (arith, healthy_at-lt bs i h)

mem-healthy_from :
    (k i : ℕ) (bs : List Backend) → healthy_at bs i ≡ true → Mem (k + i) (healthy_from k bs)
unfolding healthy_from
mem-healthy_from k i [] h = cc
mem-healthy_from k zero (b ∷ bs) h = rw h (mem-cons.1 (Or.inl (omega arith)))
mem-healthy_from k (suc i) (b ∷ bs) h =
    let shift : k + suc i ≡ k + 1 + i = omega arith in
    elim (Bool-cases b.healthy) [
      | inl e ↦ rw (e, shift) (mem-cons.1 (Or.inr (mem-healthy_from (k + 1) i bs h)))
      | inr e ↦ rw (e, shift) (mem-healthy_from (k + 1) i bs h)
    ]

mem-by_latency : (bs : List Backend) (i : ℕ) (is : List ℕ) → Mem i is → Mem i (by_latency bs is)
unfolding by_latency
mem-by_latency bs i [] m = absurd (not-mem-nil m)
mem-by_latency bs i (j ∷ js) m = (Perm.mem_iff (exchange_sort-perm (slower bs) (j ∷ js))).1 m

mem-iota : (n i : ℕ) → i < n → Mem i (iota 0 n)
mem-iota n i h = mem_of_get (iota 0 n) i (get_elem?-iota 0 n i h ∙ ap some (omega arith))

mem-turned : (s i : ℕ) (xs : List ℕ) → Mem i xs → Mem i (drop s xs ++ take s xs)
mem-turned s i xs m =
    mem-append.1
      (Or.symm ((mem-append {s = take s xs} {t = drop s xs}).0 (rw (take-append-drop s xs) m)))

counted-backends : (st : Strategy) (lb : Balancer) → (counted st lb).backends ≡ lb.backends
counted-backends round_robin lb = refl
counted-backends random lb = refl
counted-backends least_latency lb = refl

module _ {W : Type 0} (sc : Sidecars W)
    (intn_lt : (n : ℕ) (w : W) → 0 < n → (sc.intn n w).0 < n) where
  shuffle-at :
      (m : ℕ) (xs : List ℕ) (w : W) (k : ℕ) {a : ℕ}
      → m < length xs
      → get_elem? xs k ≡ some a
      → (k' : ℕ) × (get_elem? (shuffle sc m xs w).0 k' ≡ some a)
  unfolding shuffle
  shuffle-at zero xs w k p h = (k, h)
  shuffle-at (suc m) xs w k p h =
      let j = (sc.intn (suc m + 1) w).0 in
      let j_lt : j < suc m + 1 = intn_lt (suc m + 1) w (omega arith) in
      let (k', at_k') = swap-at xs (suc m) j k p (omega arith) h in
      shuffle-at m (swap xs (suc m) j) _ k' (omega (arith, length-swap xs (suc m) j)) at_k'

  order_by-Mem :
      (st : Strategy) (bs : List Backend) (v : ℕ) (w : W) (i : ℕ)
      → healthy_at bs i ≡ true
      → Mem i (order_by sc st bs v w).0
  unfolding order_by
  order_by-Mem round_robin bs v w i h = mem-turned _ i _ (mem-iota _ i (healthy_at-lt bs i h))
  order_by-Mem least_latency bs v w i h =
      mem-by_latency bs i _ (rw zero-add at (mem-healthy_from 0 i bs h))
  order_by-Mem random bs v w i h =
      let lt = healthy_at-lt bs i h in
      let (k, at_k) =
        shuffle-at (length bs - 1) (iota 0 (length bs)) w i
          (omega (arith, length-iota 0 (length bs)))
          (get_elem?-iota 0 (length bs) i lt ∙ ap some (omega arith)) in
      mem_of_get _ k at_k

  -- Each healthy backend is in the order, whatever the strategy.
  pub pick_order-Mem :
      (lb : Balancer) (w : W) (i : ℕ)
      → healthy_at lb.backends i ≡ true
      → Mem i (pick_order sc lb w).0
  unfolding pick_order
  pick_order-Mem lb w i h = elim (Bool-cases (length lb.backends == 0)) [
    | inl e ↦ absurd (ground (arith, healthy_at-lt lb.backends i h))
    | inr e ↦ rw e (order_by-Mem lb.strategy lb.backends _ w i h)
  ]

pub pick_order-backends :
    {W : Type 0} (sc : Sidecars W) (lb : Balancer) (w : W)
    → (pick_order sc lb w).1.0.backends ≡ lb.backends
unfolding pick_order
pick_order-backends sc lb w = elim (Bool-cases (length lb.backends == 0)) [
  | inl e ↦ rw e
  | inr e ↦ rw e (counted-backends lb.strategy lb)
]

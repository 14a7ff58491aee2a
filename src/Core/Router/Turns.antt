-- ===== src/Core/Router/Turns.antt =====
-- core/router.go: the turns that RoundRobinRouter takes, and where its counter leaves `int`.
use native.Mathlib.Nat.{mod-add-mod, zero-mod}
use ao_eo.Base.{
  ℕ, zero, suc, ◌+◌, ◌-◌, ◌%◌, ◌^◌, ◌≤◌, ◌<◌, ◌≡◌, ◌≢◌, refl, ap, ◌∙◌, List, [], ◌∷◌, ◌++◌, map,
  length, get_or, take, drop, Outcome, ok, panic, arith, rotate_from, rotate_from-eq,
}
use ao_eo.Core.Router.{
  ProviderStatus, available_indices, turn, turn_index, rotated, add_one, round_robin_select,
  round_robin_pick, round_robin_sequence, round_robin_order, u64_mod,
}
use ao_eo.Core.Router.Select.{first}

-- Below 2^63 the index is the old counter modulo the length.
turn_index-lt : (c n : ℕ) → c < 2 ^ 63 → turn_index c n ≡ ok (c % n)
unfolding turn_index
turn_index-lt c n h =
    let back : (((c + 1) % u64_mod) + u64_mod - 1) % u64_mod ≡ c = omega arith in
    rw back (ground arith)

turn_index-ge :
    (c n : ℕ)
    → 2 ^ 63 ≤ c
    → c < 2 ^ 64
    → (2 ^ 64 - c) % n ≢ 0
    → turn_index c n ≡ panic "index out of range"
unfolding turn_index
turn_index-ge c n lo hi h =
    let back : (((c + 1) % u64_mod) + u64_mod - 1) % u64_mod ≡ c = omega arith in
    rw back (ground arith)

turn-lt : (seq : List ℕ) (c : ℕ) → c < 2 ^ 63 → turn seq c ≡ ok (get_or seq (c % length seq) 0)
unfolding turn
turn-lt seq c h = rw (turn_index-lt c (length seq) h, turn)

rotated-lt :
    (seq : List ℕ) (c : ℕ)
    → c < 2 ^ 63
    → 0 < length seq
    → rotated seq c ≡ ok (drop (c % length seq) seq ++ take (c % length seq) seq)
unfolding rotated
rotated-lt seq c h p =
    rw (turn_index-lt c (length seq) h, rotated)
      (ap ok (rotate_from-eq 0 seq (c % length seq) (omega arith)))

-- The next calls of Select, as many as given, while the candidates stay the same.
unfoldable pub selects : ℕ → List ProviderStatus → ℕ → List (Outcome ℕ)
selects zero cs c = []
selects (suc n) cs c = (round_robin_select cs c).0 ∷ selects n cs (round_robin_select cs c).1

pick-cons :
    (seq : List ℕ) (c : ℕ) → 0 < length seq → round_robin_pick seq c ≡ (turn seq c, add_one c)
unfolding round_robin_pick
pick-cons [] c h = absurd (omega arith)
pick-cons (i ∷ is) c h = refl

select-lt :
    (cs : List ProviderStatus) (c : ℕ)
    → 0 < length (available_indices cs)
    → c < 2 ^ 63
    → round_robin_select cs c
      ≡ (ok (get_or (available_indices cs) (c % length (available_indices cs)) 0), c + 1)
unfolding round_robin_select add_one
select-lt cs c p h =
    let stays : (c + 1) % u64_mod ≡ c + 1 = omega arith in
    pick-cons (available_indices cs) c p ∙ cc (turn-lt (available_indices cs) c h, stays)

selects-eq :
    (n : ℕ) (cs : List ProviderStatus) (c k d : ℕ)
    → 0 < length (available_indices cs)
    → d ≡ c + k
    → d + n ≤ 2 ^ 63
    → selects n cs d
      ≡ map ok (rotate_from 0 (available_indices cs) (c % length (available_indices cs)) k n)
unfolding selects rotate_from
selects-eq zero cs c k d p e h = refl
selects-eq (suc n) cs c k d p e h = rw (
  select-lt cs d p (omega arith),
  selects-eq n cs c (k + 1) (d + 1) p (omega arith) (omega arith),
  mod-add-mod c (length (available_indices cs)) k,
  e,
)

-- While the counter stays below 2^63, one call of Select for each available candidate gives the
-- available indices in order, from the counter's turn round to the one before it: each once.
pub round_robin_fair :
    (cs : List ProviderStatus) (c : ℕ)
    → 0 < length (available_indices cs)
    → c + length (available_indices cs) ≤ 2 ^ 63
    → selects (length (available_indices cs)) cs c
      ≡ map ok (
          drop (c % length (available_indices cs)) (available_indices cs)
          ++ take (c % length (available_indices cs)) (available_indices cs))
round_robin_fair cs c p h =
    selects-eq (length (available_indices cs)) cs c 0 c p (omega arith) h
    ∙ ap (map ok) (rotate_from-eq 0 (available_indices cs) _ (omega arith))

order-cons :
    (seq : List ℕ) (c : ℕ) → 1 < length seq → round_robin_order seq c ≡ (rotated seq c, add_one c)
unfolding round_robin_order
order-cons [] c h = absurd (omega arith)
order-cons (i ∷ []) c h = absurd (omega arith)
order-cons (i ∷ j ∷ is) c h = refl

-- With two or more available candidates and the counter below 2^63, SelectSequence gives the
-- available indices from the counter's turn round to the one before it, and moves the counter by one.
pub round_robin_sequence_rotates :
    (cs : List ProviderStatus) (c : ℕ)
    → 1 < length (available_indices cs)
    → c < 2 ^ 63
    → round_robin_sequence cs c ≡ (
      ok (
          drop (c % length (available_indices cs)) (available_indices cs)
          ++ take (c % length (available_indices cs)) (available_indices cs)),
      c + 1,
    )
unfolding round_robin_sequence add_one
round_robin_sequence_rotates cs c p h =
    let stays : (c + 1) % u64_mod ≡ c + 1 = omega arith in
    order-cons (available_indices cs) c p
    ∙ cc (rotated-lt (available_indices cs) c h (omega arith), stays)

-- From 2^63 on the counter is negative as an `int`: with an available candidate, Select panics,
-- unless the remainder of the negative counter by the number of available candidates is zero.
pub round_robin_panics :
    (cs : List ProviderStatus) (c : ℕ)
    → 2 ^ 63 ≤ c
    → c < 2 ^ 64
    → 0 < length (available_indices cs)
    → (2 ^ 64 - c) % length (available_indices cs) ≢ 0
    → (round_robin_select cs c).0 ≡ panic "index out of range"
unfolding round_robin_select turn
round_robin_panics cs c lo hi p h = rw (
  pick-cons (available_indices cs) c p,
  turn_index-ge c (length (available_indices cs)) lo hi h,
  turn,
)

-- With a counter of zero Select returns the first available candidate, or fails if there is none.
pub select_zero :
    (cs : List ProviderStatus) → (round_robin_select cs 0).0 ≡ first (available_indices cs)
unfolding round_robin_select round_robin_pick
select_zero cs = by_length (available_indices cs) refl
  where
    by_length : (seq : List ℕ) → available_indices cs ≡ seq → (round_robin_pick seq 0).0 ≡ first seq
    by_length [] e = refl
    by_length (i ∷ is) e = turn-lt (i ∷ is) 0 (omega arith) ∙ rw (zero-mod (length (i ∷ is)))

-- ===== src/Engine/Semaphore/Wake.antt =====
-- internal/engine/semaphore.go: the wake loop of ReleaseN and setMaxConc where nobody interferes.
use ao_eo.Base.{
  ℕ, zero, suc, ◌+◌, ◌%◌, ◌^◌, ◌<◌, ◌≤◌, ◌≡◌, refl, ap, ◌∙◌, inl, inr, true, false, List, [], ◌∷◌,
  ◌++◌, length, arith, Bool-cases,
}
use ao_eo.Engine.Semaphore.{
  Semaphore, Waiter, add32, sub32, le32, fits, take_slots, give_slots, head_fits, wake_from,
  wake_all, release_n, set_max_conc, store_max,
}

abbrev pub slots : List Waiter → ℕ
slots [] = 0
slots (w ∷ ws) = w.n + slots ws

abbrev pub All : {A : Type 0} → (A → Type 0) → List A → Type 0
All P [] = Unit {0}
All P (x ∷ xs) = P x × All P xs

-- Each waiter fits when its turn comes, the slots of those before it taken.
abbrev pub AllFit : Semaphore → List Waiter → Type 0
AllFit a [] = Unit {0}
AllFit a (w ∷ ws) = (fits a w.n ≡ true) × AllFit (take_slots a w.n) ws

-- What the loop has done: it took a prefix of the queue, each waiter of which fits at its turn, and
-- its slots, and stopped at the end or at a waiter that does not fit.
pub record Woken (a : Semaphore) (ws : List Waiter) (b : Semaphore) (woken : List Waiter)
    : Type 0 where
  pub prefix : ws ≡ woken ++ b.waiters
  pub fitted : AllFit a woken
  pub counted : b.in_use ≡ (a.in_use + slots woken) % 2 ^ 32
  pub capacity : b.max_conc ≡ a.max_conc
  pub stopped : head_fits b ≡ false

taken_lt : (a : Semaphore) (n : ℕ) → (take_slots a n).in_use < 2 ^ 32
unfolding take_slots
taken_lt a n = omega arith

taken_sum :
    (a : Semaphore) (n k : ℕ)
    → ((take_slots a n).in_use + k) % 2 ^ 32 ≡ (a.in_use + (n + k)) % 2 ^ 32
unfolding take_slots
taken_sum a n k = omega arith

wake_from-Woken :
    (fuel : ℕ) (ws : List Waiter) (a : Semaphore)
    → length ws ≤ fuel
    → a.in_use < 2 ^ 32
    → Woken a ws (wake_from fuel ws a).0 (wake_from fuel ws a).1
unfolding wake_from head_fits
wake_from-Woken zero [] a h k = ground arith
wake_from-Woken zero (w ∷ ws) a h k = absurd (omega arith)
wake_from-Woken (suc fuel) [] a h k = ground arith
wake_from-Woken (suc fuel) (w ∷ ws) a h k = elim (Bool-cases (fits a w.n)) [
  | inl e ↦
      let ih = wake_from-Woken fuel ws (take_slots a w.n) (omega arith) (taken_lt a w.n) in
      rw (e, wake_from)
        (record {
          prefix = ap (◌∷◌ w) ih.prefix;
          fitted = (e, ih.fitted);
          counted = ih.counted ∙ taken_sum a w.n _;
          capacity = ih.capacity;
          stopped = ih.stopped;
        })
  | inr e ↦
      rw (e, wake_from)
        (record { prefix = refl; fitted = tt; counted = omega arith; capacity = refl; stopped = e })
]

-- Where nobody interferes, ReleaseN gives n slots back and then wakes from the front: the woken
-- waiters are a prefix of the queue, each of them fits into the capacity when its turn comes, their
-- slots are added, the rest stays in order, and the loop stops only at an empty queue or at a first
-- waiter that does not fit.
pub release_n-Woken :
    (a : Semaphore) (n : ℕ) → Woken (give_slots a n) a.waiters (release_n a n).0 (release_n a n).1
unfolding release_n wake_all give_slots
release_n-Woken a n =
    wake_from-Woken (length a.waiters) a.waiters (give_slots a n) (omega arith) (omega arith)

-- Where nobody interferes, and with inUse below 2^32, setMaxConc stores its new capacity, at least
-- one, and then wakes from the front like ReleaseN: a prefix of the queue, each waiter of which fits
-- when its turn comes and whose slots are added, up to an empty queue or a first waiter that does
-- not fit.
pub set_max_conc-Woken :
    (a : Semaphore) (n : ℕ)
    → a.in_use < 2 ^ 32
    → Woken (store_max a n) a.waiters (set_max_conc a n).0 (set_max_conc a n).1
unfolding set_max_conc wake_all store_max
set_max_conc-Woken a n h =
    wake_from-Woken (length a.waiters) a.waiters (store_max a n) (omega arith) h

-- Slots in use, with nobody interfering, stay within the capacity: if a release leaves at most the
-- capacity in use, so does the wake loop after it. All numbers are in the positive range of `int32`.
within_from :
    (fuel : ℕ) (ws : List Waiter) (a : Semaphore)
    → a.max_conc < 2 ^ 30
    → a.in_use ≤ a.max_conc
    → All (λ w. w.n < 2 ^ 30) ws
    → (wake_from fuel ws a).0.in_use ≤ a.max_conc
unfolding wake_from fits take_slots add32 le32
within_from zero ws a c h p = h
within_from (suc fuel) [] a c h p = h
within_from (suc fuel) (w ∷ ws) a c h p = elim (Bool-cases (fits a w.n)) [
  | inl e ↦
      let room : (take_slots a w.n).in_use ≤ a.max_conc = ground arith in
      rw (e, wake_from) (within_from fuel ws (take_slots a w.n) c room p.1)
  | inr e ↦ rw (e, wake_from) h
]

-- Where nobody interferes, a release never wakes past the capacity: with at most the capacity in
-- use and all numbers below 2^30, at most the capacity is in use after ReleaseN of no more than
-- what is in use.
pub release_n_within :
    (a : Semaphore) (n : ℕ)
    → a.max_conc < 2 ^ 30
    → a.in_use ≤ a.max_conc
    → n ≤ a.in_use
    → All (λ w. w.n < 2 ^ 30) a.waiters
    → (release_n a n).0.in_use ≤ (release_n a n).0.max_conc
unfolding release_n wake_all give_slots sub32
release_n_within a n c h k p =
    let b = give_slots a n in
    let left : b.in_use ≤ b.max_conc = omega arith in
    rw (wake_from-Woken (length a.waiters) a.waiters b (omega arith) (omega arith)).capacity
      (within_from (length a.waiters) a.waiters b c left p)

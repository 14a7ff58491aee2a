-- ===== src/Engine/Semaphore/Races.antt =====
-- internal/engine/semaphore.go: two interleavings that the lock does not rule out. The fast path
-- does not take `mu`, and a cancelled call gives its slots back without waking anybody.
use ao_eo.Base.{ℕ, ◌+◌, ◌^◌, ◌<◌, ◌≤◌, ◌≡◌, refl, true, false, List, [], ◌∷◌, arith}
use ao_eo.Engine.Semaphore.{
  Waiter, add32, sub32, le32, fits, take_slots, give_slots, enqueue, without, head_fits,
  new_semaphore,
}
use ao_eo.Engine.Semaphore.Threads.{
  Pc, idle, locked, waiting, holding, releasing, Lock, free, wake, System, Step, Reach, here, next,
  start, call, load, test_room, test_full, swap_ok, recheck_full, cancel, withdraw_late, refund,
  release, wake_take, wake_add, wake_stop,
}
use ao_eo.Engine.Semaphore.Account.{total}

-- Three goroutines at one semaphore.
abbrev pub trio : ℕ → ℕ → List Waiter → Lock → Pc → Pc → Pc → System
trio max_conc in_use waiters lock a b c = record {
  sem = record { in_use = in_use; max_conc = max_conc; waiters = waiters };
  lock = lock;
  threads = a ∷ b ∷ c ∷ [];
}

abbrev pub entry : ℕ → ℕ → Waiter
entry ch n = record { ch = ch; n = n }

Reach-trans : {s t u : System} → Reach s t → Reach t u → Reach s u
Reach-trans r here = r
Reach-trans r (next q st) = next (Reach-trans r q) st

module _ (m : ℕ) (pos : 0 < m) (small : m < 2 ^ 30) where
  begin : start 3 m ≡ trio m 0 [] free idle idle idle
  unfolding new_semaphore
  begin = ground arith

  room : (n : ℕ) → n < m + 1 → le32 (add32 0 n) m ≡ true
  unfolding le32 add32
  room n h = ground arith

  full : (n : ℕ) → 0 < n → n ≤ m → le32 (add32 m n) m ≡ false
  unfolding le32 add32
  full n h k = ground arith

  -- Goroutine 0 takes all slots.
  take_all : (b c : Pc) → Reach (trio m 0 [] free idle b c) (trio m m [] free (holding m) b c)
  unfolding take_slots add32
  take_all b c =
      next
        (next (next (next here (call 0 m refl refl)) (load 0 m refl refl))
          (test_room 0 m 0 refl (room m (omega arith)) refl))
        (swap_ok 0 m 0 refl refl (ground arith))

  -- Goroutine 1 finds no room for n slots, and waits.
  park_second :
      (n : ℕ) (a c : Pc)
      → 0 < n
      → n ≤ m
      → Reach
          (trio m m [] free a idle c)
          (trio m m (entry 1 n ∷ []) free a (waiting false n false) c)
  unfolding enqueue fits
  park_second n a c h k =
      next
        (next (next (next here (call 1 n refl refl)) (load 1 n refl refl))
          (test_full 1 n m refl (full n h k) refl))
        (recheck_full 1 n refl refl (full n h k) refl)

  -- Goroutine 2 finds no room for n slots, and waits behind goroutine 1.
  park_third :
      (n : ℕ) (w : Waiter) (a b : Pc)
      → 0 < n
      → n ≤ m
      → Reach
          (trio m m (w ∷ []) free a b idle)
          (trio m m (w ∷ entry 2 n ∷ []) free a b (waiting false n false))
  unfolding enqueue fits
  park_third n w a b h k =
      next
        (next (next (next here (call 2 n refl refl)) (load 2 n refl refl))
          (test_full 2 n m refl (full n h k) refl))
        (recheck_full 2 n refl refl (full n h k) refl)

  -- Goroutine 0 gives all its slots back, and goes on to wake.
  let_go :
      (ws : List Waiter) (b c : Pc)
      → Step (trio m m ws free (holding m) b c) (trio m 0 ws free releasing b c)
  unfolding give_slots sub32
  let_go ws b c = release 0 m refl (ground arith)

  -- Between the test of the wake loop and its Add, the fast path takes the room that was tested.
  overtake :
      Reach
        (trio m 0 (entry 1 1 ∷ []) free releasing (waiting false 1 false) idle)
        (trio m (m + 1) [] free releasing (waiting false 1 true) (holding m))
  unfolding take_slots add32 fits
  overtake =
      next {t = trio m m [] (wake 0 (entry 1 1)) locked (waiting false 1 false) (holding m)}
        (next
          (next
            (next (next (next here (call 2 m refl refl)) (load 2 m refl refl))
              (test_room 2 m 0 refl (room m (omega arith)) refl))
            (wake_take 0 (entry 1 1) [] refl refl refl (room 1 (omega arith)) refl))
          (swap_ok 2 m 0 refl refl (ground arith)))
        (wake_add 0 (entry 1 1) false refl refl refl (ground arith))

  -- The capacity is no bound on the slots in use: for every capacity m from 1 to 2^30 - 1 there is
  -- an interleaving of three goroutines after which m + 1 slots are granted at once. A fast path that
  -- runs between the test and the Add of the wake loop takes the slots that were tested, since it
  -- does not lock.
  pub over_admission :
      (s : System) × Reach (start 3 m) s
      × (s.sem.max_conc ≡ m)
      × (s.sem.in_use ≡ m + 1)
      × (total s.threads ≡ m + 1)
  over_admission = (
    trio m (m + 1) [] free releasing (waiting false 1 true) (holding m),
    rw begin (
        Reach-trans
          (next
            (Reach-trans (take_all idle idle)
              (park_second 1 (holding m) idle (omega arith) (omega arith)))
            (let_go (entry 1 1 ∷ []) (waiting false 1 false) idle))
          overtake),
    refl,
    refl,
    omega arith,
  )

  -- Goroutine 1 is woken, but its context ends first: it gives the slots back and wakes nobody.
  abandon :
      Reach
        (trio m 0
          (entry 1 m ∷ entry 2 m ∷ [])
          free
          releasing
          (waiting false m false)
          (waiting false m false))
        (trio m 0 (entry 2 m ∷ []) free idle idle (waiting false m false))
  unfolding take_slots give_slots add32 sub32 fits without head_fits
  abandon =
      next
        (next
          (next
            (next
              {t = trio m m (entry 2 m ∷ []) free releasing (waiting false m true)
                (waiting false m false)}
              (next
                (next here (
                  wake_take 0 (entry 1 m) (entry 2 m ∷ []) refl refl refl (room m (omega arith))
                    refl))
                (wake_add 0 (entry 1 m) false refl refl refl (ground arith)))
              (wake_stop 0 refl refl (full m pos (omega arith)) refl))
            (cancel 1 m true refl refl))
          (withdraw_late 1 m true refl refl refl refl))
        (refund 1 m refl (ground arith))

  -- A wake-up can be lost: for every capacity m from 1 to 2^30 - 1 there is an interleaving of three
  -- goroutines after which no slot is in use and nobody is inside a call but one goroutine, which waits for m slots
  -- in the queue with nothing left to wake it. The waiter before it was granted its slots, was
  -- cancelled, and gave them back without a wake loop.
  pub lost_wakeup :
      Reach (start 3 m) (trio m 0 (entry 2 m ∷ []) free idle idle (waiting false m false))
  lost_wakeup = rw begin (
      Reach-trans
        (next
          (Reach-trans (take_all idle idle) (
            Reach-trans (park_second m (holding m) idle pos (omega arith))
              (park_third m (entry 1 m) (holding m) (waiting false m false) pos (omega arith))))
          (let_go (entry 1 m ∷ entry 2 m ∷ []) (waiting false m false) (waiting false m false)))
        abandon)

-- ===== src/Engine/Semaphore/Tests.antt =====
-- internal/engine/semaphore.go: two goroutines at a semaphore of one slot, and full semaphores.
use ao_eo.Base.{ℕ, ◌+◌, ◌%◌, ◌^◌, ◌≡◌, refl, List, [], ◌∷◌, false, arith}
use ao_eo.Engine.Semaphore.{
  Semaphore, Waiter, add32, sub32, le32, fits, take_slots, give_slots, new_semaphore, release_n,
}
use ao_eo.Engine.Semaphore.Threads.{
  Pc, idle, locked, holding, Lock, free, reserve, System, Step, Reach, here, next, start, call,
  load, test_room, test_full, swap_ok, recheck_room, release, releasing, waiting,
}
use ao_eo.Engine.Semaphore.Account.{total}
use ao_eo.Engine.Semaphore.Queue.{parked_at, pending, Consistent}
use ao_eo.Engine.Semaphore.Steps.{in_use-eq-owned, queue-Consistent, lock-released}
use ao_eo.Engine.Semaphore.Races.{trio, entry, over_admission, lost_wakeup}
use ao_eo.Engine.Semaphore.Wake.{Woken, release_n-Woken}

abbrev pair : ℕ → List Waiter → Lock → Pc → Pc → System
pair in_use waiters lock a b = record {
  sem = record { in_use = in_use; max_conc = 1; waiters = waiters };
  lock = lock;
  threads = a ∷ b ∷ [];
}

-- The first goroutine takes the slot on the fast path.
held : Reach (start 2 1) (pair 1 [] free (holding 1) idle)
unfolding new_semaphore take_slots le32 add32
held =
    next
      (next (next (next here (call 0 1 refl refl)) (load 0 1 refl refl))
        (test_room 0 1 0 refl refl refl))
      (swap_ok 0 1 0 refl refl refl)

in_use-eq-owned_example : 1 ≡ total (holding 1 ∷ idle ∷ []) % 2 ^ 32
in_use-eq-owned_example = in_use-eq-owned 2 1 (pair 1 [] free (holding 1) idle) held

queue-Consistent_example : Consistent (parked_at (holding 1 ∷ idle ∷ [])) (pending free [])
queue-Consistent_example = queue-Consistent 2 1 (pair 1 [] free (holding 1) idle) held

abbrev full : Semaphore
full = record {
  in_use = 4;
  max_conc = 4;
  waiters = record { ch = 1; n = 2 } ∷ record { ch = 2; n = 3 } ∷ [];
}

release_n-Woken_example :
    Woken (give_slots full 3) full.waiters (release_n full 3).0 (release_n full 3).1
release_n-Woken_example = release_n-Woken full 3

over_admission_example :
    (s : System) × Reach (start 3 2) s
    × (s.sem.max_conc ≡ 2)
    × (s.sem.in_use ≡ 2 + 1)
    × (total s.threads ≡ 2 + 1)
over_admission_example = over_admission 2 (omega arith) (omega arith)

lost_wakeup_example :
    Reach (start 3 1) (trio 1 0 (entry 2 1 ∷ []) free idle idle (waiting false 1 false))
lost_wakeup_example = lost_wakeup 1 (omega arith) (omega arith)

-- The second one found the semaphore full, and finds room once it has the lock.
rechecking : Reach (start 2 1) (pair 0 [] (reserve 1 1) releasing locked)
unfolding new_semaphore take_slots give_slots le32 add32 sub32 fits
rechecking =
    next
      (next
        (next (next (next held (call 1 1 refl refl)) (load 1 1 refl refl))
          (test_full 1 1 1 refl refl refl))
        (release 0 1 refl refl))
      (recheck_room 1 1 refl refl refl refl)

lock-released_example :
    (u : System) × Step (pair 0 [] (reserve 1 1) releasing locked) u × (u.lock ≡ free)
lock-released_example =
    lock-released 2 1 (pair 0 [] (reserve 1 1) releasing locked) rechecking (λ h. cc h)

-- ===== src/Engine/Semaphore/Threads.antt =====
-- internal/engine/semaphore.go: the goroutines that call the semaphore, one shared access at a time.
-- The loads of `inUse` and `maxConc` that one locked test makes are one step, and so are a test
-- that fails and the append under the same lock; a compare-and-swap is one step.
use ao_eo.Base.{ℕ, ◌≡◌, ◌≢◌, Bool, true, false, List, ◌∷◌, get_elem?, set, some, replicate}
use ao_eo.Engine.Semaphore.{
  Semaphore, Waiter, new_semaphore, add32, le32, fits, take_slots, give_slots, enqueue, without,
  head_fits, store_max,
}

-- Where a goroutine stands, with the local variables that are live there.
pub data Pc : Type 0 where
  idle : Pc  -- outside the semaphore, holding nothing
  trying : (n : ℕ) → Pc  -- AcquireN: head of the fast path's loop
  loaded : (n current : ℕ) → Pc  -- inUse was loaded
  swapping : (n current : ℕ) → Pc  -- the test passed: before the compare-and-swap
  slow : (n : ℕ) → Pc  -- before the lock of the slow path
  locked : Pc  -- holds `mu`, see `Lock`
  reserved : (n : ℕ) → Pc  -- took the slots under the lock: before the test of ctx.Err()
  waiting : (leaving : Bool) (n : ℕ) (granted : Bool) → Pc  -- in the select; `leaving`: ctx.Done() was
      -- chosen; `granted`: the slots were taken
      -- on its behalf
  refunding : (n : ℕ) → Pc  -- before inUse.Add(-int32(n)) of a cancelled call
  holding : (n : ℕ) → Pc  -- returned nil, and has not released yet
  releasing : Pc  -- in the wake loop, without the lock

-- Who holds `mu`, in the middle of a locked section.
pub data Lock : Type 0 where
  free : Lock
  reserve : (thread n : ℕ) → Lock  -- the slow path's test passed: before Add
  wake : (thread : ℕ) (w : Waiter) → Lock  -- the first waiter was taken out: before Add

pub record System : Type 0 where
  pub sem : Semaphore
  pub lock : Lock
  pub threads : List Pc

abbrev pub At : System → ℕ → Pc → Type 0
At s i pc = get_elem? s.threads i ≡ some pc

abbrev pub move : System → ℕ → Pc → System
move s i pc = record s { threads = set s.threads i pc }

-- The goroutine is told that it has its slots.
abbrev pub grant : List Pc → ℕ → ℕ → Bool → List Pc
grant ts ch n leaving = set ts ch (waiting leaving n true)

pub data Step (s u : System) : Type 0 where
  call : (i n : ℕ) → At s i idle → u ≡ move s i (trying n) → Step s u
  load : (i n : ℕ) → At s i (trying n) → u ≡ move s i (loaded n s.sem.in_use) → Step s u
  test_room :
      (i n current : ℕ)
      → At s i (loaded n current)
      → le32 (add32 current n) s.sem.max_conc ≡ true
      → u ≡ move s i (swapping n current)
      → Step s u
  test_full :
      (i n current : ℕ)
      → At s i (loaded n current)
      → le32 (add32 current n) s.sem.max_conc ≡ false
      → u ≡ move s i (slow n)
      → Step s u
  swap_ok :
      (i n current : ℕ)
      → At s i (swapping n current)
      → s.sem.in_use ≡ current
      → u ≡ move (record s { sem = take_slots s.sem n }) i (holding n)
      → Step s u
  swap_retry :
      (i n current : ℕ)
      → At s i (swapping n current)
      → s.sem.in_use ≢ current
      → u ≡ move s i (trying n)
      → Step s u
  recheck_room :
      (i n : ℕ)
      → At s i (slow n)
      → s.lock ≡ free
      → fits s.sem n ≡ true
      → u ≡ move (record s { lock = reserve i n }) i locked
      → Step s u
  recheck_add :
      (i n : ℕ)
      → At s i locked
      → s.lock ≡ reserve i n
      → u ≡ move (record s { sem = take_slots s.sem n; lock = free }) i (reserved n)
      → Step s u
  recheck_full :
      (i n : ℕ)
      → At s i (slow n)
      → s.lock ≡ free
      → fits s.sem n ≡ false
      → u
        ≡ move
            (record s { sem = enqueue s.sem (record { ch = i; n = n }) })
            i
            (waiting false n false)
      → Step s u
  context_live : (i n : ℕ) → At s i (reserved n) → u ≡ move s i (holding n) → Step s u
  context_over : (i n : ℕ) → At s i (reserved n) → u ≡ move s i (refunding n) → Step s u
  receive : (i n : ℕ) → At s i (waiting false n true) → u ≡ move s i (holding n) → Step s u
  cancel :
      (i n : ℕ) (granted : Bool)
      → At s i (waiting false n granted)
      → u ≡ move s i (waiting true n granted)
      → Step s u
  withdraw :
      (i n : ℕ) (granted : Bool)
      → At s i (waiting true n granted)
      → s.lock ≡ free
      → (without i s.sem.waiters).1 ≡ true
      → u ≡ move (record s { sem = record s.sem { waiters = (without i s.sem.waiters).0 } }) i idle
      → Step s u
  withdraw_late :
      (i n : ℕ) (granted : Bool)
      → At s i (waiting true n granted)
      → s.lock ≡ free
      → (without i s.sem.waiters).1 ≡ false
      → u ≡ move s i (refunding n)
      → Step s u
  refund :
      (i n : ℕ)
      → At s i (refunding n)
      → u ≡ move (record s { sem = give_slots s.sem n }) i idle
      → Step s u
  release :
      (i n : ℕ)
      → At s i (holding n)
      → u ≡ move (record s { sem = give_slots s.sem n }) i releasing
      → Step s u
  resize :
      (i n : ℕ)
      → At s i idle
      → u ≡ move (record s { sem = store_max s.sem n }) i releasing
      → Step s u
  wake_take :
      (i : ℕ) (w : Waiter) (ws : List Waiter)
      → At s i releasing
      → s.lock ≡ free
      → s.sem.waiters ≡ w ∷ ws
      → fits s.sem w.n ≡ true
      → u ≡ move (record s { sem = record s.sem { waiters = ws }; lock = wake i w }) i locked
      → Step s u
  wake_add :
      (i : ℕ) (w : Waiter) (leaving : Bool)
      → At s i locked
      → s.lock ≡ wake i w
      → At s w.ch (waiting leaving w.n false)
      → u ≡ record {
        sem = take_slots s.sem w.n;
        lock = free;
        threads = set (grant s.threads w.ch w.n leaving) i releasing;
      }
      → Step s u
  wake_stop :
      (i : ℕ)
      → At s i releasing
      → s.lock ≡ free
      → head_fits s.sem ≡ false
      → u ≡ move s i idle
      → Step s u

pub data Reach (s : System) : System → Type 0 where
  here : Reach s s
  next : {t u : System} → Reach s t → Step t u → Reach s u

-- Goroutines that have not called yet, and a new semaphore.
abbrev pub start : ℕ → ℕ → System
start threads max_conc = record {
  sem = new_semaphore max_conc;
  lock = free;
  threads = replicate threads idle;
}

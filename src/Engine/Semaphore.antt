-- ===== src/Engine/Semaphore.antt =====
-- internal/engine/semaphore.go: the adaptive semaphore. `inUse` and `maxConc` are `int32`, kept as
-- bit patterns modulo 2^32; the channel of a waiter is the number of the goroutine that made it.
pub mod Wake
pub mod Threads
pub mod Queue
pub mod Account
pub mod Steps
pub mod Races
mod Tests
use ao_eo.Base.{
  ℕ, zero, suc, ◌+◌, ◌-◌, ◌%◌, ◌^◌, Bool, true, false, not, List, [], ◌∷◌, ◌++◌, length, Option,
  none, some, leb, ltb, ◌==◌, if◌then◌else◌,
}

abbrev pub u32 : ℕ
u32 = 2 ^ 32

-- `a + int32(n)` and `a - int32(n)`
unfoldable pub add32 : ℕ → ℕ → ℕ
add32 a n = (a + n) % u32

unfoldable pub sub32 : ℕ → ℕ → ℕ
sub32 a n = (a + u32 - n % u32) % u32

-- a <= b on `int32`: the order of the patterns after a shift by 2^31
unfoldable pub le32 : ℕ → ℕ → Bool
le32 a b = leb ((a + 2 ^ 31) % u32) ((b + 2 ^ 31) % u32)

pub record Waiter : Type 0 where
  pub ch : ℕ
  pub n : ℕ

pub record Semaphore : Type 0 where
  pub in_use : ℕ
  pub max_conc : ℕ
  pub waiters : List Waiter

-- NewAdaptiveSemaphore
unfoldable pub new_semaphore : ℕ → Semaphore
new_semaphore max_conc = record { in_use = 0; max_conc = max_conc % u32; waiters = [] }

-- a.inUse.Load()+int32(n) <= a.maxConc.Load()
unfoldable pub fits : Semaphore → ℕ → Bool
unfolding add32 le32
fits a n = le32 (add32 a.in_use n) a.max_conc

-- a.inUse.Add(int32(n)) and a.inUse.Add(-int32(n))
unfoldable pub take_slots : Semaphore → ℕ → Semaphore
unfolding add32
take_slots a n = record a { in_use = add32 a.in_use n }

unfoldable pub give_slots : Semaphore → ℕ → Semaphore
unfolding sub32
give_slots a n = record a { in_use = sub32 a.in_use n }

unfoldable pub enqueue : Semaphore → Waiter → Semaphore
enqueue a w = record a { waiters = a.waiters ++ (w ∷ []) }

-- The search of a cancelled waiter for its own entry: what is left, and whether it was found.
unfoldable pub without : ℕ → List Waiter → List Waiter × Bool
without ch [] = ([], false)
without ch (w ∷ ws) =
    let (rest, found) = without ch ws in if w.ch == ch then (ws, true) else (w ∷ rest, found)

-- The condition of the wake loop: a first waiter, and room for it.
unfoldable pub head_fits : Semaphore → Bool
unfolding fits
head_fits a = elim a.waiters [ [] ↦ false | w ∷ ws ↦ fits a w.n ]

-- The wake loop of ReleaseN and setMaxConc where nobody interferes: the semaphore after it, and
-- the waiters woken, in order. Each round takes a waiter out, so their number is enough fuel.
unfoldable pub wake_from : ℕ → List Waiter → Semaphore → Semaphore × List Waiter
unfolding fits take_slots
wake_from zero ws a = (record a { waiters = ws }, [])
wake_from (suc fuel) [] a = (record a { waiters = [] }, [])
wake_from (suc fuel) (w ∷ ws) a =
    let next = wake_from fuel ws (take_slots a w.n) in
    if fits a w.n then (next.0, w ∷ next.1) else (record a { waiters = w ∷ ws }, [])

unfoldable pub wake_all : Semaphore → Semaphore × List Waiter
unfolding wake_from
wake_all a = wake_from (length a.waiters) a.waiters a

unfoldable pub release_n : Semaphore → ℕ → Semaphore × List Waiter
unfolding wake_all give_slots
release_n a n = wake_all (give_slots a n)

-- A capacity below one becomes one.
unfoldable pub store_max : Semaphore → ℕ → Semaphore
store_max a n = record a { max_conc = (if ltb n 1 then 1 else n) % u32 }

unfoldable pub set_max_conc : Semaphore → ℕ → Semaphore × List Waiter
unfolding wake_all store_max
set_max_conc a n = wake_all (store_max a n)

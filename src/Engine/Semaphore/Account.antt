-- ===== src/Engine/Semaphore/Account.antt =====
-- internal/engine/semaphore.go: what `inUse` counts, under every interleaving.
use ao_eo.Base.{
  ℕ, zero, suc, ◌+◌, ◌%◌, ◌≡◌, refl, Bool, true, false, List, [], ◌∷◌, get_elem?, set,
  get_elem?-set_ne, some, arith,
}
use ao_eo.Engine.Semaphore.{Semaphore, u32, add32, sub32}
use ao_eo.Engine.Semaphore.Threads.{
  Pc, locked, reserved, waiting, refunding, holding, Lock, free, reserve, wake, System,
}
use ao_eo.Engine.Semaphore.Queue.{parked, parked_at, pending, Consistent, parked_at-set_same}

-- The slots that a goroutine accounts for: those it holds, has reserved or was granted, and those
-- of a cancelled call until it gives them back.
abbrev pub owned : Pc → ℕ
owned (reserved n) = n
owned (waiting leaving n true) = n
owned (refunding n) = n
owned (holding n) = n
owned _ = 0

abbrev pub total : List Pc → ℕ
total [] = 0
total (pc ∷ ts) = owned pc + total ts

abbrev pub is_locked : Pc → Bool
is_locked locked = true
is_locked _ = false

abbrev pub Owned : Lock → List Pc → Type 0
Owned free ts = Unit {0}
Owned (reserve i n) ts = get_elem? ts i ≡ some locked
Owned (wake i w) ts = get_elem? ts i ≡ some locked

pub record Inv (sem : Semaphore) (lock : Lock) (ts : List Pc) : Type 0 where
  pub queue : Consistent (parked_at ts) (pending lock sem.waiters)
  pub owner : Owned lock ts
  pub account : sem.in_use ≡ total ts % u32

pub total-set :
    (ts : List Pc) (i : ℕ) (old new : Pc)
    → get_elem? ts i ≡ some old
    → total (set ts i new) + owned old ≡ total ts + owned new
total-set [] i old new h = cc
total-set (pc ∷ ts) zero old new h = let e : pc ≡ old = cc in rw e (omega arith)
total-set (pc ∷ ts) (suc i) old new h = omega (arith, total-set ts i old new h)

pub other_than_locked :
    (ts : List Pc) (i k : ℕ) (old new : Pc)
    → get_elem? ts i ≡ some old
    → is_locked old ≡ false
    → get_elem? ts k ≡ some locked
    → get_elem? (set ts i new) k ≡ some locked
other_than_locked ts i k old new h l o =
    rw (get_elem?-set_ne ts new λ (e : i ≡ k). distinct (rw e at h)) o
  where
    distinct : get_elem? ts k ≡ some old → ⊥
    distinct h' = let e : old ≡ locked = cc (h', o) in cc (rw e at l)

pub Owned-set :
    (lock : Lock) (ts : List Pc) (i : ℕ) (old new : Pc)
    → get_elem? ts i ≡ some old
    → is_locked old ≡ false
    → Owned lock ts
    → Owned lock (set ts i new)
Owned-set free ts i old new h l o = tt
Owned-set (reserve k n) ts i old new h l o = other_than_locked ts i k old new h l o
Owned-set (wake k w) ts i old new h l o = other_than_locked ts i k old new h l o

-- A goroutine outside the lock moves on: it stays parked or unparked as it was, the queue stays,
-- and `inUse` follows the change of what it owns.
pub Inv-move :
    (sem sem' : Semaphore) (lock : Lock) (ts : List Pc) (i : ℕ) (old new : Pc)
    → Inv sem lock ts
    → get_elem? ts i ≡ some old
    → is_locked old ≡ false
    → parked new ≡ parked old
    → sem'.waiters ≡ sem.waiters
    → (total (set ts i new) + owned old ≡ total ts + owned new
        → sem'.in_use ≡ total (set ts i new) % u32)
    → Inv sem' lock (set ts i new)
Inv-move sem sem' lock ts i old new v h l p w a = record {
  queue = rw (w, parked_at-set_same ts i old new h p) v.queue;
  owner = Owned-set lock ts i old new h l v.owner;
  account = a (total-set ts i old new h);
}

abbrev pub SystemInv : System → Type 0
SystemInv s = Inv s.sem s.lock s.threads

-- A goroutine takes its lock, or leaves it, in a step that parks nobody.
pub Inv-locked :
    (sem sem' : Semaphore) (lock lock' : Lock) (ts : List Pc) (i : ℕ) (old new : Pc)
    → Inv sem lock ts
    → get_elem? ts i ≡ some old
    → parked new ≡ parked old
    → pending lock' sem'.waiters ≡ pending lock sem.waiters
    → Owned lock' (set ts i new)
    → (total (set ts i new) + owned old ≡ total ts + owned new
        → sem'.in_use ≡ total (set ts i new) % u32)
    → Inv sem' lock' (set ts i new)
Inv-locked sem sem' lock lock' ts i old new v h p w o a = record {
  queue = rw (w, parked_at-set_same ts i old new h p) v.queue;
  owner = o;
  account = a (total-set ts i old new h);
}

pub at_self :
    (ts : List Pc) (i : ℕ) (old new : Pc)
    → get_elem? ts i ≡ some old
    → get_elem? (set ts i new) i ≡ some new
at_self [] i old new h = cc
at_self (pc ∷ ts) zero old new h = refl
at_self (pc ∷ ts) (suc i) old new h = at_self ts i old new h

pub take_account : (a n t t' : ℕ) → a ≡ t % u32 → t' ≡ t + n → add32 a n ≡ t' % u32
unfolding add32
take_account a n t t' h e = omega arith

pub give_account : (a n t t' : ℕ) → a ≡ t % u32 → t' + n ≡ t → sub32 a n ≡ t' % u32
unfolding sub32
give_account a n t t' h e = omega arith

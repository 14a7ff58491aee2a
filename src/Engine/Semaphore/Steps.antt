-- ===== src/Engine/Semaphore/Steps.antt =====
-- internal/engine/semaphore.go: every step keeps the queue, the lock and the account.
use ao_eo.Base.{
  ℕ, zero, suc, ◌%◌, ◌^◌, ◌≡◌, ◌≢◌, refl, ap, Bool, true, false, get_elem?, set, replicate, Option,
  none, some, arith,
}
use ao_eo.Engine.Semaphore.{
  Waiter, take_slots, give_slots, enqueue, without, store_max, new_semaphore,
}
use ao_eo.Engine.Semaphore.Threads.{
  Pc, idle, trying, loaded, swapping, slow, locked, reserved, waiting, refunding, holding,
  releasing, Lock, free, reserve, wake, System, At, move, grant, Step, Reach, here, next, start,
  call, load, test_room, test_full, swap_ok, swap_retry, recheck_room, recheck_add, recheck_full,
  context_live, context_over, receive, cancel, withdraw, withdraw_late, refund, release, resize,
  wake_take, wake_add, wake_stop,
}
use ao_eo.Engine.Semaphore.Queue.{
  parked, parked_of, parked_at, Entries-Queued, pending, Consistent, parked_at-set,
  parked_at-set_same, Consistent-append, Consistent-tail, Consistent-without, without-Queued,
  Queued-without,
}
use ao_eo.Engine.Semaphore.Account.{
  total, Inv, SystemInv, Inv-move, Inv-locked, at_self, take_account, give_account,
  other_than_locked, Owned-set, total-set,
}

module _ (s : System) (v : SystemInv s) where
  enqueue-Inv :
      (i n : ℕ)
      → At s i (slow n)
      → s.lock ≡ free
      → SystemInv (
          move
            (record s { sem = enqueue s.sem (record { ch = i; n = n }) })
            i
            (waiting false n false))
  unfolding enqueue
  enqueue-Inv i n h l = record {
    queue =
        rw (l, parked_at-set s.threads i (slow n) (waiting false n false) h)
          (Consistent-append (parked_at s.threads) i n s.sem.waiters (rw l at v.queue) (rw h));
    owner = Owned-set s.lock s.threads i (slow n) _ h refl v.owner;
    account = omega (arith, v.account, total-set s.threads i (slow n) (waiting false n false) h);
  }

  withdraw-Inv :
      (i n : ℕ) (granted : Bool)
      → At s i (waiting true n granted)
      → s.lock ≡ free
      → (without i s.sem.waiters).1 ≡ true
      → SystemInv
          (move (record s { sem = record s.sem { waiters = (without i s.sem.waiters).0 } }) i idle)
  withdraw-Inv i n true h l found =
      let (m, e) =
        Entries-Queued (parked_at s.threads) i s.sem.waiters (rw l at v.queue).entries
          (Queued-without i s.sem.waiters found) in
      cc (rw h at e)
  withdraw-Inv i n false h l found = record {
    queue =
        rw (l, parked_at-set s.threads i (waiting true n false) idle h)
          (Consistent-without (parked_at s.threads) i s.sem.waiters (rw l at v.queue));
    owner = Owned-set s.lock s.threads i (waiting true n false) idle h refl v.owner;
    account = omega (arith, v.account, total-set s.threads i (waiting true n false) idle h);
  }

  withdraw_late-Inv :
      (i n : ℕ) (granted : Bool)
      → At s i (waiting true n granted)
      → s.lock ≡ free
      → (without i s.sem.waiters).1 ≡ false
      → SystemInv (move s i (refunding n))
  withdraw_late-Inv i n true h l lost =
      Inv-move s.sem s.sem s.lock s.threads i _ _ v h refl refl refl (λ t. omega (arith, v.account))
  withdraw_late-Inv i n false h l lost =
      let parked_here : parked_at s.threads i ≡ some n = rw h in
      cc (without-Queued i s.sem.waiters ((rw l at v.queue).complete i n parked_here), lost)

  wake_add-Inv :
      (i : ℕ) (w : Waiter) (leaving : Bool)
      → At s i locked
      → s.lock ≡ wake i w
      → At s w.ch (waiting leaving w.n false)
      → Inv (take_slots s.sem w.n) free (set (grant s.threads w.ch w.n leaving) i releasing)
  unfolding take_slots
  wake_add-Inv i w leaving h l wait =
      let granted = waiting leaving w.n true in
      let after = set s.threads w.ch granted in
      let stands : get_elem? after i ≡ some locked =
        other_than_locked s.threads w.ch i (waiting leaving w.n false) granted wait refl h in
      record {
        queue =
            rw
              (
                parked_at-set_same after i locked releasing stands refl,
                parked_at-set s.threads w.ch (waiting leaving w.n false) granted wait,
              )
              (Consistent-tail (parked_at s.threads) w s.sem.waiters (rw l at v.queue));
        owner = tt;
        account = take_account s.sem.in_use w.n (total s.threads) _ v.account (
            omega (
              arith,
              total-set after i locked releasing stands,
              total-set s.threads w.ch (waiting leaving w.n false) granted wait,
            ));
      }

-- Every step keeps the queue, the lock and the account.
pub Step-Inv : (s u : System) → Step s u → SystemInv s → SystemInv u
unfolding take_slots give_slots store_max
Step-Inv s u (call i n h e) v = rw e (
    Inv-move s.sem s.sem s.lock s.threads i _ (trying n) v h refl refl refl
      (λ t. omega (arith, v.account)))
Step-Inv s u (load i n h e) v = rw e (
    Inv-move s.sem s.sem s.lock s.threads i _ (loaded n s.sem.in_use) v h refl refl refl
      (λ t. omega (arith, v.account)))
Step-Inv s u (test_room i n c h r e) v = rw e (
    Inv-move s.sem s.sem s.lock s.threads i _ (swapping n c) v h refl refl refl
      (λ t. omega (arith, v.account)))
Step-Inv s u (test_full i n c h r e) v = rw e (
    Inv-move s.sem s.sem s.lock s.threads i _ (slow n) v h refl refl refl
      (λ t. omega (arith, v.account)))
Step-Inv s u (swap_ok i n c h r e) v = rw e (
    Inv-move s.sem _ s.lock s.threads i _ (holding n) v h refl refl refl
      (λ t. take_account s.sem.in_use n (total s.threads) _ v.account (omega arith)))
Step-Inv s u (swap_retry i n c h r e) v = rw e (
    Inv-move s.sem s.sem s.lock s.threads i _ (trying n) v h refl refl refl
      (λ t. omega (arith, v.account)))
Step-Inv s u (recheck_room i n h l r e) v = rw e (
    Inv-locked s.sem s.sem s.lock (reserve i n) s.threads i (slow n) locked v h refl (rw l)
      (at_self s.threads i (slow n) locked h) (λ t. omega (arith, v.account)))
Step-Inv s u (recheck_add i n h l e) v = rw e (
    Inv-locked s.sem (take_slots s.sem n) s.lock free s.threads i locked (reserved n) v h refl
      (rw l) tt (λ t. take_account s.sem.in_use n (total s.threads) _ v.account (omega arith)))
Step-Inv s u (recheck_full i n h l r e) v = rw e (enqueue-Inv s v i n h l)
Step-Inv s u (context_live i n h e) v = rw e (
    Inv-move s.sem s.sem s.lock s.threads i _ (holding n) v h refl refl refl
      (λ t. omega (arith, v.account)))
Step-Inv s u (context_over i n h e) v = rw e (
    Inv-move s.sem s.sem s.lock s.threads i _ (refunding n) v h refl refl refl
      (λ t. omega (arith, v.account)))
Step-Inv s u (receive i n h e) v = rw e (
    Inv-move s.sem s.sem s.lock s.threads i _ (holding n) v h refl refl refl
      (λ t. omega (arith, v.account)))
Step-Inv s u (cancel i n true h e) v = rw e (
    Inv-move s.sem s.sem s.lock s.threads i _ (waiting true n true) v h refl refl refl
      (λ t. omega (arith, v.account)))
Step-Inv s u (cancel i n false h e) v = rw e (
    Inv-move s.sem s.sem s.lock s.threads i _ (waiting true n false) v h refl refl refl
      (λ t. omega (arith, v.account)))
Step-Inv s u (withdraw i n g h l found e) v = rw e (withdraw-Inv s v i n g h l found)
Step-Inv s u (withdraw_late i n g h l lost e) v = rw e (withdraw_late-Inv s v i n g h l lost)
Step-Inv s u (refund i n h e) v = rw e (
    Inv-move s.sem _ s.lock s.threads i _ (idle) v h refl refl refl
      (λ t. give_account s.sem.in_use n (total s.threads) _ v.account (omega arith)))
Step-Inv s u (release i n h e) v = rw e (
    Inv-move s.sem _ s.lock s.threads i _ (releasing) v h refl refl refl
      (λ t. give_account s.sem.in_use n (total s.threads) _ v.account (omega arith)))
Step-Inv s u (resize i n h e) v = rw e (
    Inv-move s.sem _ s.lock s.threads i _ (releasing) v h refl refl refl
      (λ t. omega (arith, v.account)))
Step-Inv s u (wake_take i w ws h l q r e) v = rw e (
    Inv-locked s.sem _ s.lock (wake i w) s.threads i releasing locked v h refl (rw (l, q))
      (at_self s.threads i releasing locked h) (λ t. omega (arith, v.account)))
Step-Inv s u (wake_add i w leaving h l wait e) v = rw e (wake_add-Inv s v i w leaving h l wait)
Step-Inv s u (wake_stop i h l r e) v = rw e (
    Inv-move s.sem s.sem s.lock s.threads i _ (idle) v h refl refl refl
      (λ t. omega (arith, v.account)))

Reach-Inv : {s u : System} → SystemInv s → Reach s u → SystemInv u
Reach-Inv v here = v
Reach-Inv v (next r st) = Step-Inv _ _ st (Reach-Inv v r)

idle_parked : (k i : ℕ) → parked_at (replicate k idle) i ≡ none
idle_parked zero i = refl
idle_parked (suc k) zero = refl
idle_parked (suc k) (suc i) = idle_parked k i

idle_total : (k : ℕ) → total (replicate k idle) ≡ 0
idle_total zero = refl
idle_total (suc k) = omega (arith, idle_total k)

start-Inv : (k m : ℕ) → SystemInv (start k m)
unfolding new_semaphore
start-Inv k m = record {
  queue = record { entries = tt; complete = λ i n e. cc (idle_parked k i, e); distinct = tt };
  owner = tt;
  account = rw (idle_total k);
}

-- However the goroutines interleave, `inUse` is the number of slots that they hold, have reserved,
-- were granted or have yet to give back, modulo 2^32: no slot is lost or counted twice.
pub in_use-eq-owned :
    (k m : ℕ) (s : System) → Reach (start k m) s → s.sem.in_use ≡ total s.threads % 2 ^ 32
in_use-eq-owned k m s r = (Reach-Inv (start-Inv k m) r).account

-- However the goroutines interleave, the queue and the waiter that is being woken are exactly the
-- goroutines that wait with no slots taken for them, each once and with its number of slots.
pub queue-Consistent :
    (k m : ℕ) (s : System)
    → Reach (start k m) s
    → Consistent (parked_at s.threads) (pending s.lock s.sem.waiters)
queue-Consistent k m s r = (Reach-Inv (start-Inv k m) r).queue

parked_pc :
    (pc : Pc) (n : ℕ) → parked pc ≡ some n → (leaving : Bool) × (pc ≡ waiting leaving n false)
parked_pc (waiting leaving m false) n h = (leaving, cc)
parked_pc (waiting leaving m true) n h = cc
parked_pc idle n h = cc
parked_pc _ n h = cc

parked_thread :
    (o : Option Pc) (n : ℕ)
    → parked_of o ≡ some n
    → (leaving : Bool) × (o ≡ some (waiting leaving n false))
parked_thread none n h = cc
parked_thread (some pc) n h = let (leaving, e) = parked_pc pc n h in (leaving, ap some e)

unlock :
    (s : System) (lock : Lock)
    → SystemInv s
    → s.lock ≡ lock
    → lock ≢ free
    → (u : System) × Step s u × (u.lock ≡ free)
unlock s free v l h = absurd (h refl)
unlock s (reserve i n) v l h = (_, recheck_add i n (rw l at v.owner) l refl, refl)
unlock s (wake i w) v l h =
    let (leaving, wait) = parked_thread _ w.n (rw l at v.queue).entries.0 in
    (_, wake_add i w leaving (rw l at v.owner) l wait refl, refl)

-- A goroutine that holds `mu` can always take the step that unlocks it.
pub lock-released :
    (k m : ℕ) (s : System)
    → Reach (start k m) s
    → s.lock ≢ free
    → (u : System) × Step s u × (u.lock ≡ free)
lock-released k m s r h = unlock s s.lock (Reach-Inv (start-Inv k m) r) refl h

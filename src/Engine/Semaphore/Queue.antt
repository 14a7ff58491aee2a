-- ===== src/Engine/Semaphore/Queue.antt =====
-- internal/engine/semaphore.go: the wait queue against the goroutines that wait in it.
use mathlib.Core.Path.{fun_ext}
use ao_eo.Base.{
  ℕ, zero, suc, ◌<◌, ◌≡◌, ◌≢◌, sym, ◌∙◌, ◌⊎◌, inl, inr, Bool, true, false, List, [], ◌∷◌, ◌++◌,
  get_elem?, set, length, get_elem?-set_self, get_elem?-set_ne, Option, none, some, arith, ◌==◌,
  ==_iff, if◌then◌else◌, Bool-cases,
}
use ao_eo.Engine.Semaphore.{Waiter, without}
use ao_eo.Engine.Semaphore.Threads.{Pc, waiting, Lock, free, reserve, wake}

-- A goroutine waits for n slots that nobody has taken for it yet.
abbrev pub parked : Pc → Option ℕ
parked (waiting leaving n false) = some n
parked _ = none

abbrev pub parked_of : Option Pc → Option ℕ
parked_of none = none
parked_of (some pc) = parked pc

abbrev pub parked_at : List Pc → ℕ → Option ℕ
parked_at ts i = parked_of (get_elem? ts i)

-- The waiters that wait for their slots: those in the queue, behind the one that is being woken.
abbrev pub pending : Lock → List Waiter → List Waiter
pending (wake i w) ws = w ∷ ws
pending free ws = ws
pending (reserve i n) ws = ws

abbrev pub Queued : ℕ → List Waiter → Type 0
Queued i [] = ⊥
Queued i (w ∷ ws) = (w.ch ≡ i) ⊎ Queued i ws

abbrev pub Entries : (ℕ → Option ℕ) → List Waiter → Type 0
Entries p [] = Unit {0}
Entries p (w ∷ ws) = (p w.ch ≡ some w.n) × Entries p ws

abbrev pub Distinct : List Waiter → Type 0
Distinct [] = Unit {0}
Distinct (w ∷ ws) = (¬ Queued w.ch ws) × Distinct ws

-- The queue has exactly one entry for each goroutine that is parked, with its number of slots.
pub record Consistent (p : ℕ → Option ℕ) (ws : List Waiter) : Type 0 where
  pub entries : Entries p ws
  pub complete : (i n : ℕ) → p i ≡ some n → Queued i ws
  pub distinct : Distinct ws

index_lt : {A : Type 0} (xs : List A) (i : ℕ) {a : A} → get_elem? xs i ≡ some a → i < length xs
index_lt [] i h = cc
index_lt (x ∷ xs) zero h = omega arith
index_lt (x ∷ xs) (suc i) h = omega (arith, index_lt xs i h)

-- p with a new value at i
abbrev pub with_at : (ℕ → Option ℕ) → ℕ → Option ℕ → ℕ → Option ℕ
with_at p i v j = if i == j then v else p j

pub parked_at-set :
    (ts : List Pc) (i : ℕ) (old new : Pc)
    → get_elem? ts i ≡ some old
    → parked_at (set ts i new) ≡ with_at (parked_at ts) i (parked new)
parked_at-set ts i old new h = fun_ext λ j. elim (Bool-cases (i == j)) [
  | inl e ↦
      let same : i ≡ j = (==_iff i j).0 e in
      rw (← same, get_elem?-set_self ts i new (index_lt ts i h)) (ground arith)
  | inr e ↦
      let differ : i ≢ j = (λ q. cc ((==_iff i j).1 q)) in rw (e, get_elem?-set_ne ts new differ)
]

pub parked_at-set_same :
    (ts : List Pc) (i : ℕ) (old new : Pc)
    → get_elem? ts i ≡ some old
    → parked new ≡ parked old
    → parked_at (set ts i new) ≡ parked_at ts
parked_at-set_same ts i old new h e =
    parked_at-set ts i old new h
    ∙ fun_ext λ j. elim (Bool-cases (i == j)) [
      | inl q ↦ let same : i ≡ j = (==_iff i j).0 q in rw (← same, h) (ground arith)
      | inr q ↦ rw q
    ]

Entries-with_at :
    (p : ℕ → Option ℕ) (i : ℕ) (v : Option ℕ) (ws : List Waiter)
    → ¬ Queued i ws
    → Entries p ws
    → Entries (with_at p i v) ws
Entries-with_at p i v [] h e = tt
Entries-with_at p i v (w ∷ ws) h e = (
  (let miss : (i == w.ch) ≡ false = ground (arith, λ (q : w.ch ≡ i). h (inl q)) in rw miss e.0),
  Entries-with_at p i v ws (λ q. h (inr q)) e.1,
)

-- A goroutine that parks is appended.
Queued-append : (i : ℕ) (ws vs : List Waiter) → Queued i ws ⊎ Queued i vs → Queued i (ws ++ vs)
Queued-append i [] vs (inl q) = absurd q
Queued-append i [] vs (inr q) = q
Queued-append i (w ∷ ws) vs (inl (inl e)) = inl e
Queued-append i (w ∷ ws) vs (inl (inr q)) = inr (Queued-append i ws vs (inl q))
Queued-append i (w ∷ ws) vs (inr q) = inr (Queued-append i ws vs (inr q))

append-Queued : (i : ℕ) (ws vs : List Waiter) → Queued i (ws ++ vs) → Queued i ws ⊎ Queued i vs
append-Queued i [] vs q = inr q
append-Queued i (w ∷ ws) vs (inl e) = inl (inl e)
append-Queued i (w ∷ ws) vs (inr q) = elim (append-Queued i ws vs q) [
  | inl l ↦ inl (inr l)
  | inr r ↦ inr r
]

Entries-append :
    (p : ℕ → Option ℕ) (ws vs : List Waiter) → Entries p ws → Entries p vs → Entries p (ws ++ vs)
Entries-append p [] vs a b = b
Entries-append p (w ∷ ws) vs a b = (a.0, Entries-append p ws vs a.1 b)

Distinct-append :
    (i n : ℕ) (ws : List Waiter)
    → Distinct ws
    → ¬ Queued i ws
    → Distinct (ws ++ record { ch = i; n = n } ∷ [])
Distinct-append i n [] d h = (λ q. q, tt)
Distinct-append i n (w ∷ ws) d h = (
  λ q. (elim (append-Queued w.ch ws _ q) [
    | inl l ↦ d.0 l
    | inr r ↦ elim r [ inl e ↦ h (inl (sym e)) | inr x ↦ x ]
  ]),
  Distinct-append i n ws d.1 (λ q. h (inr q)),
)

pub Entries-Queued :
    (p : ℕ → Option ℕ) (i : ℕ) (ws : List Waiter)
    → Entries p ws
    → Queued i ws
    → (n : ℕ) × (p i ≡ some n)
Entries-Queued p i [] e q = absurd q
Entries-Queued p i (w ∷ ws) e (inl h) = (w.n, rw (← h) e.0)
Entries-Queued p i (w ∷ ws) e (inr q) = Entries-Queued p i ws e.1 q

pub Consistent-append :
    (p : ℕ → Option ℕ) (i n : ℕ) (ws : List Waiter)
    → Consistent p ws
    → p i ≡ none
    → Consistent (with_at p i (some n)) (ws ++ record { ch = i; n = n } ∷ [])
Consistent-append p i n ws c h = record {
  entries =
      Entries-append _ ws _ (Entries-with_at p i (some n) ws absent c.entries) (ground arith, tt);
  complete = λ j m e. Queued-append j ws _ (elim (Bool-cases (i == j)) [
    | inl q ↦ inr (inl ((==_iff i j).0 q))
    | inr q ↦ inl (c.complete j m (rw q at e))
  ]);
  distinct = Distinct-append i n ws c.distinct absent;
}
  where
    absent : ¬ Queued i ws
    absent q = let (m, e) = Entries-Queued p i ws c.entries q in cc (e, h)

-- The first waiter is granted its slots.
pub Consistent-tail :
    (p : ℕ → Option ℕ) (w : Waiter) (ws : List Waiter)
    → Consistent p (w ∷ ws)
    → Consistent (with_at p w.ch none) ws
Consistent-tail p w ws c = record {
  entries = Entries-with_at p w.ch none ws c.distinct.0 c.entries.1;
  complete = λ j m e. elim (Bool-cases (w.ch == j)) [
    | inl q ↦ cc (rw q at e)
    | inr q ↦ elim (c.complete j m (rw q at e)) [
      | inl h ↦ absurd (ground (arith, ==_iff w.ch j))
      | inr later ↦ later
    ]
  ];
  distinct = c.distinct.1;
}

pub without-Queued : (i : ℕ) (ws : List Waiter) → Queued i ws → (without i ws).1 ≡ true
unfolding without
without-Queued i [] q = absurd q
without-Queued i (w ∷ ws) (inl e) = ground (arith, ==_iff w.ch i)
without-Queued i (w ∷ ws) (inr q) = ground (arith, without-Queued i ws q)

pub Queued-without : (i : ℕ) (ws : List Waiter) → (without i ws).1 ≡ true → Queued i ws
unfolding without
Queued-without i [] e = cc
Queued-without i (w ∷ ws) e = elim (Bool-cases (w.ch == i)) [
  | inl q ↦ inl ((==_iff w.ch i).0 q)
  | inr q ↦ inr (Queued-without i ws (ground arith))
]

Queued-of_without : (i j : ℕ) (ws : List Waiter) → Queued j (without i ws).0 → Queued j ws
unfolding without
Queued-of_without i j [] q = q
Queued-of_without i j (w ∷ ws) q = elim (Bool-cases (w.ch == i)) [
  | inl e ↦ inr (rw (e, without) at q)
  | inr e ↦ elim (kept (w.ch == i) e q) [ inl h ↦ inl h | inr h ↦ inr (Queued-of_without i j ws h) ]
]
  where
    kept :
        (b : Bool)
        → b ≡ false
        → Queued j
            (if◌then◌else◌ {A = List Waiter × Bool} b
              (ws, true)
              (w ∷ (without i ws).0, (without i ws).1)).0
        → (w.ch ≡ j) ⊎ Queued j (without i ws).0
    kept true e q = cc
    kept false e q = q

Queued-without_ne : (i j : ℕ) (ws : List Waiter) → i ≢ j → Queued j ws → Queued j (without i ws).0
unfolding without
Queued-without_ne i j [] h q = absurd q
Queued-without_ne i j (w ∷ ws) h q = elim (Bool-cases (w.ch == i)) [
  | inl e ↦ rw (e, without) (later q ((==_iff w.ch i).0 e))
  | inr e ↦ rw (e, without) (elim q [ inl p ↦ inl p | inr l ↦ inr (Queued-without_ne i j ws h l) ])
]
  where
    later : (w.ch ≡ j) ⊎ Queued j ws → w.ch ≡ i → Queued j ws
    later (inl p) e = absurd (omega arith)
    later (inr l) e = l

Entries-without :
    (p : ℕ → Option ℕ) (i : ℕ) (ws : List Waiter)
    → Distinct ws
    → Entries p ws
    → Entries (with_at p i none) (without i ws).0
unfolding without
Entries-without p i [] d e = tt
Entries-without p i (w ∷ ws) d e = elim (Bool-cases (w.ch == i)) [
  | inl q ↦
      let same : w.ch ≡ i = (==_iff w.ch i).0 q in
      rw (q, without) (Entries-with_at p i none ws (rw (← same) d.0) e.1)
  | inr q ↦
      let miss : (i == w.ch) ≡ false = ground (arith, ==_iff w.ch i) in
      rw (q, without) (rw miss e.0, Entries-without p i ws d.1 e.1)
]

Distinct-without : (i : ℕ) (ws : List Waiter) → Distinct ws → Distinct (without i ws).0
unfolding without
Distinct-without i [] d = tt
Distinct-without i (w ∷ ws) d = elim (Bool-cases (w.ch == i)) [
  | inl q ↦ rw (q, without) d.1
  | inr q ↦ rw (q, without) (λ l. d.0 (Queued-of_without i w.ch ws l), Distinct-without i ws d.1)
]

-- A cancelled waiter takes its own entry out, and no other.
pub Consistent-without :
    (p : ℕ → Option ℕ) (i : ℕ) (ws : List Waiter)
    → Consistent p ws
    → Consistent (with_at p i none) (without i ws).0
Consistent-without p i ws c = record {
  entries = Entries-without p i ws c.distinct c.entries;
  complete = λ j m e. elim (Bool-cases (i == j)) [
    | inl q ↦ cc (rw q at e)
    | inr q ↦ Queued-without_ne i j ws (λ h. cc ((==_iff i j).1 h)) (c.complete j m (rw q at e))
  ];
  distinct = Distinct-without i ws c.distinct;
}

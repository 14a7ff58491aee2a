-- ===== src/Core/Router/Select.antt =====
-- core/router.go: which candidates SingleProviderRouter and PrimaryRouter choose.
use ao_eo.Base.{
  ℕ, zero, suc, ◌+◌, ◌≤◌, ◌≡◌, refl, ◌↔◌, ◌-◌, ◌⊎◌, inl, inr, String, Bool, true, false, ◌&&◌, List,
  [], ◌∷◌, some, get_elem?, Outcome, ok, err, no_available_provider, arith, if◌then◌else◌, str_eq,
  eq_iff, Bool-cases,
}
use ao_eo.Core.Router.{
  ProviderStatus, available_from, available_indices, single_from, single_select, primary_from,
  primary_select, primary_sequence, nonempty,
}

-- Candidate i exists and is available.
abbrev pub IsAvailable : List ProviderStatus → ℕ → Type 0
IsAvailable cs i = (c : ProviderStatus) × (get_elem? cs i ≡ some c) × (c.available ≡ true)

abbrev pub Listed : ℕ → List ℕ → Type 0
Listed i [] = ⊥
Listed i (j ∷ js) = (i ≡ j) ⊎ Listed i js

-- Every entry is at least k, and each is below the next.
abbrev pub Ascends : ℕ → List ℕ → Type 0
Ascends k [] = Unit {0}
Ascends k (i ∷ is) = (k ≤ i) × Ascends (i + 1) is

Ascends-mono : (k m : ℕ) (is : List ℕ) → m ≤ k → Ascends k is → Ascends m is
Ascends-mono k m [] h a = tt
Ascends-mono k m (i ∷ is) h a = (omega arith, a.1)

available_from-Ascends : (k : ℕ) (cs : List ProviderStatus) → Ascends k (available_from k cs)
unfolding available_from
available_from-Ascends k [] = tt
available_from-Ascends k (c ∷ cs) = elim (Bool-cases c.available) [
  | inl e ↦ rw e (omega arith, available_from-Ascends (k + 1) cs)
  | inr e ↦ rw e (
      Ascends-mono (k + 1) k (available_from (k + 1) cs) (omega arith)
        (available_from-Ascends (k + 1) cs))
]

Listed-if :
    (b : Bool) (i k : ℕ) (rest : List ℕ)
    → Listed i (if b then k ∷ rest else rest)
    → ((b ≡ true) × (i ≡ k)) ⊎ Listed i rest
Listed-if true i k rest (inl e) = inl (refl, e)
Listed-if true i k rest (inr l) = inr l
Listed-if false i k rest l = inr l

-- An index that the scan from k lists is k past an available candidate.
pub available_from_sound :
    (k i : ℕ) (cs : List ProviderStatus)
    → Listed i (available_from k cs)
    → (j : ℕ) × (i ≡ k + j) × IsAvailable cs j
unfolding available_from
available_from_sound k i [] h = absurd h
available_from_sound k i (c ∷ cs) h =
    elim (Listed-if c.available i k (available_from (k + 1) cs) h) [
      | inl (a, e) ↦ (0, omega arith, (c, refl, a))
      | inr l ↦
          let (j, e, found) = available_from_sound (k + 1) i cs l in (suc j, omega arith, found)
    ]

pub available_from_complete :
    (k j i : ℕ) (cs : List ProviderStatus)
    → i ≡ k + j
    → IsAvailable cs j
    → Listed i (available_from k cs)
unfolding available_from
available_from_complete k j i [] e h = cc h.1
available_from_complete k zero i (c ∷ cs) e (d, f, a) =
    let a' : c.available ≡ true = ground arith in rw a' (inl (omega arith))
available_from_complete k (suc j) i (c ∷ cs) e h = elim (Bool-cases c.available) [
  | inl a ↦ rw a (inr (available_from_complete (k + 1) j i cs (omega arith) h))
  | inr a ↦ rw a (available_from_complete (k + 1) j i cs (omega arith) h)
]

Ascends-le : (k j : ℕ) (is : List ℕ) → Ascends k is → Listed j is → k ≤ j
Ascends-le k j [] a l = absurd l
Ascends-le k j (i ∷ is) a (inl e) = omega arith
Ascends-le k j (i ∷ is) a (inr l) = omega (arith, Ascends-le (i + 1) j is a.1 l)

Ascends-least : (i j : ℕ) (rest : List ℕ) → Ascends (i + 1) rest → Listed j (i ∷ rest) → i ≤ j
Ascends-least i j rest asc (inl e) = omega arith
Ascends-least i j rest asc (inr l) = omega (arith, Ascends-le (i + 1) j rest asc l)

-- The head of a sequence, or the error.
abbrev pub first : List ℕ → Outcome ℕ
first [] = err no_available_provider
first (i ∷ is) = ok i

first-eq-ok : (is : List ℕ) (i : ℕ) → first is ≡ ok i → (rest : List ℕ) × (is ≡ i ∷ rest)
first-eq-ok [] i h = cc
first-eq-ok (j ∷ is) i h = (is, cc)

first-eq-err : (is : List ℕ) → first is ≡ err no_available_provider → (i : ℕ) → ¬ Listed i is
first-eq-err [] h i l = l
first-eq-err (j ∷ is) h i l = cc

first-none : (is : List ℕ) → ((i : ℕ) → ¬ Listed i is) → first is ≡ err no_available_provider
first-none [] h = refl
first-none (j ∷ is) h = absurd (h j (inl refl))

nonempty-eq-ok : (is seq : List ℕ) → nonempty is ≡ ok seq → is ≡ seq
unfolding nonempty
nonempty-eq-ok [] seq h = cc
nonempty-eq-ok (i ∷ is) seq h = cc

IsAvailable-lists :
    (cs : List ProviderStatus) (seq : List ℕ)
    → available_indices cs ≡ seq
    → Ascends 0 seq
      × ((i : ℕ) → Listed i seq → IsAvailable cs i)
      × ((i : ℕ) → IsAvailable cs i → Listed i seq)
IsAvailable-lists cs seq e = rw (← e) (
  available_from-Ascends 0 cs,
  λ i l.
      (let (j, p, found) = available_from_sound 0 i cs l in
        let q : i ≡ j = omega arith in rw q found),
  λ i found. available_from_complete 0 i i cs (omega arith) found,
)

primary_from-eq :
    (k : ℕ) (cs : List ProviderStatus) → primary_from k cs ≡ first (available_from k cs)
unfolding primary_from available_from
primary_from-eq k [] = refl
primary_from-eq k (c ∷ cs) = ground (arith, primary_from-eq (k + 1) cs)

-- The sequence of PrimaryRouter ascends and lists exactly the candidates that are available.
pub primary_sequence_lists :
    (cs : List ProviderStatus) (seq : List ℕ)
    → primary_sequence cs ≡ ok seq
    → Ascends 0 seq
      × ((i : ℕ) → Listed i seq → IsAvailable cs i)
      × ((i : ℕ) → IsAvailable cs i → Listed i seq)
unfolding primary_sequence
primary_sequence_lists cs seq h = IsAvailable-lists cs seq (nonempty-eq-ok _ seq h)

-- Select of PrimaryRouter returns the first available candidate: it is available, and every
-- available candidate has the same index or a later one.
pub primary_select_first :
    (cs : List ProviderStatus) (i : ℕ)
    → primary_select cs ≡ ok i
    → IsAvailable cs i × ((j : ℕ) → IsAvailable cs j → i ≤ j)
unfolding primary_select
primary_select_first cs i h =
    let (rest, e) = first-eq-ok _ i (rw (primary_from-eq 0 cs) at h) in
    let (asc, sound, complete) = IsAvailable-lists cs (i ∷ rest) e in
    (sound i (inl refl), λ j found. Ascends-least i j rest asc.1 (complete j found))

-- Select of PrimaryRouter fails exactly when no candidate is available.
pub primary_select_none :
    (cs : List ProviderStatus)
    → (primary_select cs ≡ err no_available_provider) ↔ ((i : ℕ) → ¬ IsAvailable cs i)
unfolding primary_select
primary_select_none cs =
    let (asc, sound, complete) = IsAvailable-lists cs _ refl in
    rw (primary_from-eq 0 cs) (
      λ h i found. first-eq-err _ h i (complete i found),
      λ h. first-none _ (λ i l. h i (sound i l)),
    )

-- Candidate i bears the name and is available.
abbrev pub Bears : String → List ProviderStatus → ℕ → Type 0
Bears name cs i =
    (c : ProviderStatus) × (get_elem? cs i ≡ some c) × (c.name ≡ name) × (c.available ≡ true)

single_from_sound :
    (name : String) (k i : ℕ) (cs : List ProviderStatus)
    → single_from name k cs ≡ ok i
    → (j : ℕ) × (i ≡ k + j) × Bears name cs j
unfolding single_from
single_from_sound name k i [] h = cc
single_from_sound name k i (c ∷ cs) h = elim (Bool-cases (str_eq c.name name && c.available)) [
  | inl e ↦ (
    0,
    ground (arith, eq_iff c.name name),
    (c, refl, ground (arith, eq_iff c.name name), ground (arith, eq_iff c.name name)),
  )
  | inr e ↦
      let (j, p, found) = single_from_sound name (k + 1) i cs (ground arith) in
      (suc j, omega arith, found)
]

single_from_complete :
    (name : String) (k j : ℕ) (cs : List ProviderStatus)
    → Bears name cs j
    → (i : ℕ) × (single_from name k cs ≡ ok i)
unfolding single_from
single_from_complete name k j [] h = cc h.1
single_from_complete name k j (c ∷ cs) h = elim (Bool-cases (str_eq c.name name && c.available)) [
  | inl e ↦ (k, ground arith)
  | inr e ↦
      let (i, p) = single_from_complete name (k + 1) (j - 1) cs (later j h e) in (i, ground arith)
]
  where
    later :
        (j : ℕ)
        → Bears name (c ∷ cs) j
        → (str_eq c.name name && c.available) ≡ false
        → Bears name cs (j - 1)
    later zero (d, p, q, r) e = absurd (ground (arith, eq_iff c.name name))
    later (suc j) h e = let e' : suc j - 1 ≡ j = omega arith in rw e' h

-- Select of SingleProviderRouter succeeds exactly when an available candidate bears the name, and
-- what it returns is such a candidate.
pub single_select_exact :
    (name : String) (cs : List ProviderStatus)
    → ((i : ℕ) → single_select name cs ≡ ok i → Bears name cs i)
      × ((j : ℕ) → Bears name cs j → (i : ℕ) × (single_select name cs ≡ ok i))
unfolding single_select
single_select_exact name cs = (
  λ i h.
      (let (j, p, found) = single_from_sound name 0 i cs h in
        let q : i ≡ j = omega arith in rw q found),
  λ j found. single_from_complete name 0 j cs found,
)

-- ===== src/Base/ExchangeSort.antt =====
-- The in-place exchange sort: for every i, for every later j, swap if out of order.
use Prim.Native.Nat.{ℕ, zero, suc, ◌≤◌}
use mathlib.Core.Path.{◌≡◌, refl}
use mathlib.Core.Logic.{inl, inr}
use mathlib.Core.Bool.{Bool, true, false}
use mathlib.Core.List.{List, [], ◌∷◌, Perm}
use mathlib.Core.List.Perm
use native.Mathlib.Omega.{arith}
use ao_eo.Base.Lists.{length}
use ao_eo.Base.Tests.{if◌then◌else◌, Bool-cases}

module _ {ℓ} {A : Type ℓ} (swaps : A → A → Bool) where
  -- One run of the inner loop: what ends in slot i, and the slots after it.
  unfoldable pub pass : A → List A → A × List A
  pass x [] = (x, [])
  pass x (y ∷ ys) =
      if swaps x y
      then (let (m, rest) = pass y ys in (m, x ∷ rest))
      else (let (m, rest) = pass x ys in (m, y ∷ rest))

  length-pass : (x : A) (ys : List A) → length (pass x ys).1 ≡ length ys
  unfolding pass
  length-pass x [] = refl
  length-pass x (y ∷ ys) = ground (arith, length-pass x ys, length-pass y ys)

  -- The outer loop: `fuel` bounds the slots that are left, and the length is enough.
  unfoldable pub sort_slots : ℕ → List A → List A
  unfolding pass
  sort_slots zero xs = xs
  sort_slots (suc fuel) [] = []
  sort_slots (suc fuel) (x ∷ xs) = let (m, rest) = pass x xs in m ∷ sort_slots fuel rest

  unfoldable pub exchange_sort : List A → List A
  unfolding sort_slots
  exchange_sort xs = sort_slots (length xs) xs

  pass-perm : (x : A) (ys : List A) → Perm ((pass x ys).0 ∷ (pass x ys).1) (x ∷ ys)
  unfolding pass
  pass-perm x [] = Perm.refl _
  pass-perm x (y ∷ ys) = elim (Bool-cases (swaps x y)) [
    | inl e ↦ rw (e, pass) (Perm.trans (Perm.swap _ _ _) (Perm.cons x (pass-perm y ys)))
    | inr e ↦
        rw (e, pass)
          (Perm.trans (Perm.swap _ _ _)
            (Perm.trans (Perm.cons y (pass-perm x ys)) (Perm.swap _ _ _)))
  ]

  sort_slots-perm : (fuel : ℕ) (xs : List A) → Perm (sort_slots fuel xs) xs
  unfolding sort_slots
  sort_slots-perm zero xs = Perm.refl xs
  sort_slots-perm (suc fuel) [] = Perm.refl []
  sort_slots-perm (suc fuel) (x ∷ xs) =
      Perm.trans (Perm.cons _ (sort_slots-perm fuel (pass x xs).1)) (pass-perm x xs)

  -- The sort only reorders.
  pub exchange_sort-perm : (xs : List A) → Perm (exchange_sort xs) xs
  unfolding exchange_sort
  exchange_sort-perm xs = sort_slots-perm (length xs) xs

  -- `swaps` is the strict part of a total preorder: what the caller's comparison must satisfy.
  pub record IsStrictOrder : Type ℓ where
    pub asymmetric : (x y : A) → swaps x y ≡ true → swaps y x ≡ false
    pub negatively_transitive :
        (x y z : A) → swaps x y ≡ false → swaps y z ≡ false → swaps x z ≡ false

  abbrev pub Ordered : A → A → Type 0
  Ordered x y = swaps x y ≡ false

  -- `m` is never swapped with a later element.
  abbrev pub Leads : A → List A → Type 0
  Leads m [] = Unit {0}
  Leads m (y ∷ ys) = Ordered m y × Leads m ys

  abbrev pub IsSorted : List A → Type 0
  IsSorted [] = Unit {0}
  IsSorted (x ∷ xs) = Leads x xs × IsSorted xs

module _ {ℓ} {A : Type ℓ} (swaps : A → A → Bool) (order : IsStrictOrder swaps) where
  Ordered-refl : (x : A) → Ordered swaps x x
  Ordered-refl x = elim (Bool-cases (swaps x x)) [ inl e ↦ order.asymmetric x x e | inr e ↦ e ]

  pass-Leads :
      (x : A) (ys : List A)
      → Ordered swaps (pass swaps x ys).0 x × Leads swaps (pass swaps x ys).0 (pass swaps x ys).1
  unfolding pass
  pass-Leads x [] = (Ordered-refl x, tt)
  pass-Leads x (y ∷ ys) = elim (Bool-cases (swaps x y)) [
    | inl e ↦
        let ih = pass-Leads y ys in
        let below = order.negatively_transitive _ y x ih.0 (order.asymmetric x y e) in
        rw (e, pass) (below, (below, ih.1))
    | inr e ↦
        let ih = pass-Leads x ys in
        rw (e, pass) (ih.0, (order.negatively_transitive _ x y ih.0 e, ih.1))
  ]

  Leads-pass :
      (z x : A) (ys : List A)
      → Leads swaps z (x ∷ ys)
      → Leads swaps z ((pass swaps x ys).0 ∷ (pass swaps x ys).1)
  unfolding pass
  Leads-pass z x [] h = h
  Leads-pass z x (y ∷ ys) h = elim (Bool-cases (swaps x y)) [
    | inl e ↦ let ih = Leads-pass z y ys (h.1.0, h.1.1) in rw (e, pass) (ih.0, (h.0, ih.1))
    | inr e ↦ let ih = Leads-pass z x ys (h.0, h.1.1) in rw (e, pass) (ih.0, (h.1.0, ih.1))
  ]

  Leads-sort_slots :
      (fuel : ℕ) (z : A) (xs : List A) → Leads swaps z xs → Leads swaps z (sort_slots swaps fuel xs)
  unfolding sort_slots
  Leads-sort_slots zero z xs h = h
  Leads-sort_slots (suc fuel) z [] h = h
  Leads-sort_slots (suc fuel) z (x ∷ xs) h =
      let below = Leads-pass z x xs h in
      (below.0, Leads-sort_slots fuel z (pass swaps x xs).1 below.1)

  sort_slots-IsSorted :
      (fuel : ℕ) (xs : List A) → length xs ≤ fuel → IsSorted swaps (sort_slots swaps fuel xs)
  unfolding sort_slots
  sort_slots-IsSorted zero [] h = tt
  sort_slots-IsSorted zero (x ∷ xs) h = absurd (omega arith)
  sort_slots-IsSorted (suc fuel) [] h = tt
  sort_slots-IsSorted (suc fuel) (x ∷ xs) h = (
    Leads-sort_slots fuel _ _ (pass-Leads x xs).1,
    sort_slots-IsSorted fuel (pass swaps x xs).1 (omega (arith, length-pass swaps x xs)),
  )

  -- With a comparison that is the strict part of a total preorder, the sort sorts.
  pub exchange_sort-IsSorted : (xs : List A) → IsSorted swaps (exchange_sort swaps xs)
  unfolding exchange_sort
  exchange_sort-IsSorted xs = sort_slots-IsSorted (length xs) xs (omega arith)

-- ===== src/Base/Rotate.antt =====
-- Reading a slice from a start index round to the start again, as Go writes it with an index
-- modulo the length.
use Prim.Native.Nat.{ℕ, zero, suc, ◌+◌, ◌-◌, ◌%◌, ◌≤◌, ◌<◌}
use mathlib.Core.Path.{◌≡◌, refl}
use mathlib.Core.List.{List, [], ◌∷◌, ◌++◌}
use native.Mathlib.Omega.{arith}
use native.Mathlib.Nat.{mod-eq_of_lt}
use ao_eo.Base.Lists.{length, get_or, take, drop}

module _ {ℓ} {A : Type ℓ} (d : A) where
  -- for i := from; i < from + rounds; i++ { out = append(out, xs[(start+i)%len(xs)]) }
  unfoldable pub rotate_from : List A → ℕ → ℕ → ℕ → List A
  rotate_from xs start from zero = []
  rotate_from xs start from (suc rounds) =
      get_or xs ((start + from) % length xs) d ∷ rotate_from xs start (from + 1) rounds

  drop-cons : (xs : List A) (i : ℕ) → i < length xs → drop i xs ≡ get_or xs i d ∷ drop (suc i) xs
  drop-cons [] i h = absurd (omega arith)
  drop-cons (x ∷ xs) zero h = refl
  drop-cons (x ∷ xs) (suc i) h = drop-cons xs i (omega arith)

  drop-take-cons :
      (xs : List A) (i s : ℕ)
      → i < s
      → s ≤ length xs
      → drop i (take s xs) ≡ get_or xs i d ∷ drop (suc i) (take s xs)
  drop-take-cons [] i s h k = absurd (omega arith)
  drop-take-cons (x ∷ xs) i zero h k = absurd (omega arith)
  drop-take-cons (x ∷ xs) zero (suc s) h k = refl
  drop-take-cons (x ∷ xs) (suc i) (suc s) h k = drop-take-cons xs i s (omega arith) (omega arith)

  drop-all : (xs : List A) (i : ℕ) → length xs ≤ i → drop i xs ≡ []
  drop-all [] zero h = refl
  drop-all [] (suc i) h = refl
  drop-all (x ∷ xs) zero h = absurd (omega arith)
  drop-all (x ∷ xs) (suc i) h = drop-all xs i (omega arith)

  drop-take_self : (xs : List A) (s : ℕ) → drop s (take s xs) ≡ []
  drop-take_self xs zero = refl
  drop-take_self [] (suc s) = refl
  drop-take_self (x ∷ xs) (suc s) = drop-take_self xs s

  wrapped_index : (n p i : ℕ) → p ≡ n + i → i < n → p % n ≡ i
  wrapped_index n p i e h = grind arith

  mod_small : (p n : ℕ) → p < n → p % n ≡ p
  mod_small p n h = mod-eq_of_lt h

  rotate_tail :
      (xs : List A) (s from i k : ℕ)
      → s + from ≡ length xs + i
      → i + k ≡ s
      → s < length xs
      → rotate_from xs s from k ≡ drop i (take s xs)
  unfolding rotate_from
  rotate_tail xs s from i zero e p h = let e' : i ≡ s = omega arith in rw (e', drop-take_self xs s)
  rotate_tail xs s from i (suc k) e p h = rw (
    wrapped_index (length xs) (s + from) i e (omega arith),
    drop-take-cons xs i s (omega arith) (omega arith),
    rotate_tail xs s (from + 1) (suc i) k (omega arith) (omega arith) h,
  )

  rotate_head :
      (xs : List A) (s from p m k : ℕ)
      → s + from ≡ p
      → p + m ≡ length xs
      → k ≡ m + s
      → s < length xs
      → rotate_from xs s from k ≡ drop p xs ++ take s xs
  unfolding rotate_from
  rotate_head xs s from p zero k e q r h =
      rw (drop-all xs p (omega arith)) (rotate_tail xs s from 0 k (omega arith) (omega arith) h)
  rotate_head xs s from p (suc m) zero e q r h = absurd (omega arith)
  rotate_head xs s from p (suc m) (suc k) e q r h = rw (
    e,
    mod_small p (length xs) (omega arith),
    drop-cons xs p (omega arith),
    rotate_head xs s (from + 1) (suc p) m k (omega arith) (omega arith) (omega arith) h,
  )

  -- One round is the suffix from the start, then the prefix before it.
  pub rotate_from-eq :
      (xs : List A) (s : ℕ)
      → s < length xs
      → rotate_from xs s 0 (length xs) ≡ drop s xs ++ take s xs
  rotate_from-eq xs s h =
      rotate_head xs s 0 s (length xs - s) (length xs) (omega arith) (omega arith) (omega arith) h

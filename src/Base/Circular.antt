-- ===== src/Base/Circular.antt =====
-- A fixed array written round and round: the next slot to write, and how many slots hold a value.
use Prim.Native.Nat.{ℕ, zero, suc, ◌+◌, ◌-◌, ◌%◌, ◌≤◌, ◌<◌, min}
use mathlib.Core.Path.{◌≡◌, refl, ap, sym, ◌∙◌}
use mathlib.Core.Logic.{◌≢◌}
use mathlib.Core.List.{List, [], ◌∷◌}
use native.Mathlib.Omega.{arith}
use native.Mathlib.Decide.{dec_lt}
use native.Mathlib.Nat.{mod-eq_of_lt, mod-lt}
use ao_eo.Base.Lists.{length, get_or, set, length-set, take}
use ao_eo.Base.Tests.{ltb, if◌then◌else◌}

pub record Ring {ℓ} (A : Type ℓ) : Type ℓ where
  pub buf : List A
  pub head : ℕ
  pub count : ℕ

mod_below : (p n : ℕ) → p < n → p % n ≡ p
mod_below p n h = mod-eq_of_lt h

mod_below_eq : (p n q : ℕ) → p ≡ q → q < n → p % n ≡ q
mod_below_eq p n q e h = rw e (mod-eq_of_lt h)

mod_above : (p n q : ℕ) → p ≡ n + q → q < n → p % n ≡ q
mod_above p n q e h = grind arith

take-min {ℓ} : {A : Type ℓ} (n k : ℕ) (xs : List A) → k ≡ min (length xs) n → take k xs ≡ take n xs
take-min zero k xs e = let e' : k ≡ 0 = omega arith in rw e'
take-min (suc n) zero [] e = refl
take-min (suc n) (suc k) [] e = refl
take-min (suc n) zero (x ∷ xs) e = absurd (omega arith)
take-min (suc n) (suc k) (x ∷ xs) e = ap (◌∷◌ x) (take-min n k xs (omega arith))

module _ {ℓ} {A : Type ℓ} (d : A) where
  -- Write at the head, move the head on, and count up to the size.
  unfoldable pub ring_write : ℕ → A → Ring A → Ring A
  ring_write size x r = record {
    buf = set r.buf r.head x;
    head = (r.head + 1) % size;
    count = if ltb r.count size then r.count + 1 else r.count;
  }

  -- Entry i from the newest: index head - 1 - i, taken round.
  unfoldable pub ring_at : ℕ → Ring A → ℕ → A
  ring_at size r i = get_or r.buf ((r.head + size - 1 - i) % size) d

  -- Entries `from`, `from + 1`, … from the newest on.
  unfoldable pub ring_list : ℕ → Ring A → ℕ → ℕ → List A
  unfolding ring_at
  ring_list size r from zero = []
  ring_list size r from (suc k) = ring_at size r from ∷ ring_list size r (from + 1) k

  -- The ring holds the newest entries of a log, newest first.
  pub record Holds (size : ℕ) (r : Ring A) (log : List A) : Type ℓ where
    pub size_pos : 0 < size
    pub full_array : length r.buf ≡ size
    pub head_lt : r.head < size
    pub counted : r.count ≡ min (length log) size
    pub entries : (i : ℕ) → i < r.count → ring_at size r i ≡ get_or log i d

  get_or-set_self : (xs : List A) (i : ℕ) (v : A) → i < length xs → get_or (set xs i v) i d ≡ v
  get_or-set_self [] i v h = absurd (omega arith)
  get_or-set_self (x ∷ xs) zero v h = refl
  get_or-set_self (x ∷ xs) (suc i) v h = get_or-set_self xs i v (omega arith)

  get_or-set_ne : (xs : List A) (i j : ℕ) (v : A) → i ≢ j → get_or (set xs i v) j d ≡ get_or xs j d
  get_or-set_ne [] i j v h = refl
  get_or-set_ne (x ∷ xs) zero zero v h = absurd (h refl)
  get_or-set_ne (x ∷ xs) zero (suc j) v h = refl
  get_or-set_ne (x ∷ xs) (suc i) zero v h = refl
  get_or-set_ne (x ∷ xs) (suc i) (suc j) v h = get_or-set_ne xs i j v (λ e. h (ap suc e))

  wrapped_head : (h n : ℕ) → h < n → ((h + 1) % n + n - 1 - 0) % n ≡ h
  wrapped_head h n p = elim (dec_lt (h + 1) n) [
    | yes q ↦ rw (mod_below (h + 1) n q) (mod_above _ n h (omega arith) p)
    | no q ↦
        rw (mod_above (h + 1) n 0 (omega arith) (omega arith))
          (mod_below_eq (0 + n - 1 - 0) n h (omega arith) p)
  ]

  wrapped_next :
      (h n i : ℕ) → h < n → i + 1 < n → ((h + 1) % n + n - 1 - suc i) % n ≡ (h + n - 1 - i) % n
  wrapped_next h n i p q = elim (dec_lt (h + 1) n) [
    | yes r ↦ rw (mod_below (h + 1) n r) (ap (λ k. k % n) (omega arith))
    | no r ↦ rw (mod_above (h + 1) n 0 (omega arith) (omega arith)) (
        mod_below_eq (0 + n - 1 - suc i) n (n - 2 - i) (omega arith) (omega arith)
        ∙ sym (mod_above (h + n - 1 - i) n (n - 2 - i) (omega arith) (omega arith)))
  ]

  wrapped_ne : (h n i : ℕ) → h < n → i + 1 < n → h ≢ (h + n - 1 - i) % n
  wrapped_ne h n i p q e = elim (dec_lt i h) [
    | yes r ↦ omega (arith, mod_above (h + n - 1 - i) n (h - 1 - i) (omega arith) (omega arith))
    | no r ↦ omega (arith, mod_below (h + n - 1 - i) n (omega arith))
  ]

  -- A write puts its value in front of the log that the ring holds.
  pub ring_write-Holds :
      (size : ℕ) (x : A) (r : Ring A) (log : List A)
      → Holds size r log
      → Holds size (ring_write size x r) (x ∷ log)
  unfolding ring_write ring_at
  ring_write-Holds size x r log v = record {
    size_pos = v.size_pos;
    full_array = length-set r.buf r.head x ∙ v.full_array;
    head_lt = mod-lt (r.head + 1) v.size_pos;
    counted = ground (arith, v.counted);
    entries = λ i h. entry i (below i h);
  }
    where
      below :
          (i : ℕ)
          → i < (if ltb r.count size then r.count + 1 else r.count)
          → (i < suc r.count) × (i < size)
      below i h = ground (arith, v.counted)

      entry :
          (i : ℕ)
          → (i < suc r.count) × (i < size)
          → get_or (set r.buf r.head x) (((r.head + 1) % size + size - 1 - i) % size) d
            ≡ get_or (x ∷ log) i d
      entry zero h =
          rw (wrapped_head r.head size v.head_lt)
            (get_or-set_self r.buf r.head x (omega (arith, v.full_array, v.head_lt)))
      entry (suc i) h = rw (wrapped_next r.head size i v.head_lt (omega arith)) (
          get_or-set_ne r.buf r.head _ x (wrapped_ne r.head size i v.head_lt (omega arith))
          ∙ v.entries i (omega arith))

  ring_list-eq :
      (size : ℕ) (r : Ring A) (log rest : List A) (from k : ℕ)
      → ((i : ℕ) → i < r.count → ring_at size r i ≡ get_or log i d)
      → from + k ≤ r.count
      → from + k ≤ length log
      → ((i : ℕ) → get_or log (from + i) d ≡ get_or rest i d)
      → length rest + from ≡ length log
      → ring_list size r from k ≡ take k rest
  unfolding ring_list
  ring_list-eq size r log rest from zero e h l same n = refl
  ring_list-eq size r log [] from (suc k) e h l same n = absurd (omega arith)
  ring_list-eq size r log (x ∷ rest) from (suc k) e h l same n =
      let first : ring_at size r from ≡ x =
        e from (omega arith) ∙ ap (λ i. get_or log i d) (omega arith) ∙ same 0 in
      rw first (
        ap (◌∷◌ x) (
          ring_list-eq size r log rest (from + 1) k e (omega arith) (omega arith)
            (λ i. ap (λ j. get_or log j d) (omega arith) ∙ same (suc i)) (omega arith)))

  -- Listing the entries from the newest on gives the log, cut to the size.
  pub ring_list-take :
      (size : ℕ) (r : Ring A) (log : List A)
      → Holds size r log
      → ring_list size r 0 r.count ≡ take size log
  ring_list-take size r log v =
      ring_list-eq size r log log 0 r.count v.entries (omega (arith, v.counted))
        (omega (arith, v.counted)) (λ i. ap (λ j. get_or log j d) (omega arith)) (omega arith)
      ∙ take-min size r.count log v.counted

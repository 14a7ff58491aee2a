-- ===== src/Core/Float32.antt =====
-- core/types.go: the float32 parameters of a request. Each finite float32 is a multiple of 2^-149 and
-- is given by its number of these units, so that the comparisons are exact; both zeros are the same
-- number. NaN compares as false with everything.
use ao_eo.Base.{ℕ, ◌*◌, ◌^◌, ◌≡◌, ◌↔◌, Bool, true, false, ◌||◌, arith, ℤ, pos, ltb_ℤ, ◌≤ℤ◌}

pub data Float32 : Type 0 where
  nan plus_infinity minus_infinity : Float32
  units : ℤ → Float32

-- The number n
abbrev pub whole : ℕ → ℤ
whole n = pos (n * 2 ^ 149)

-- x < n, of a number of units n
unfoldable pub below : Float32 → ℤ → Bool
below nan n = false
below plus_infinity n = false
below minus_infinity n = true
below (units k) n = ltb_ℤ k n

-- x > n
unfoldable pub above : Float32 → ℤ → Bool
above nan n = false
above plus_infinity n = true
above minus_infinity n = false
above (units k) n = ltb_ℤ n k

-- NaN, or a number from 0 to `top`
abbrev pub NanOrWithin : ℤ → Float32 → Type 0
NanOrWithin top nan = Unit {0}
NanOrWithin top plus_infinity = ⊥
NanOrWithin top minus_infinity = ⊥
NanOrWithin top (units k) = (pos 0 ≤ℤ k) × (k ≤ℤ top)

-- What passes the test `x < 0 || x > top` of Validate
pub NanOrWithin-iff :
    (top : ℤ) (x : Float32) → ((below x (pos 0) || above x top) ≡ false) ↔ NanOrWithin top x
unfolding below above
NanOrWithin-iff top nan = ground arith
NanOrWithin-iff top plus_infinity = ground arith
NanOrWithin-iff top minus_infinity = ground arith
NanOrWithin-iff top (units k) = ground arith

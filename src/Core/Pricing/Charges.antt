-- ===== src/Core/Pricing/Charges.antt =====
-- core/pricing.go: how far a cost is from the exact one.
use ao_eo.Base.{
  ℕ, zero, suc, ◌+◌, ◌*◌, ◌/◌, ◌%◌, ◌^◌, ◌≤◌, ◌<◌, ◌≡◌, refl, ap, lt→ltb, ℤ, pos, negsuc, diff,
  ◌+ℤ◌, is_nonpos, arith, Bool, true, ◌&&◌, Bool-cases, inl, inr,
}
use native.Mathlib.Nat.{mod-eq_of_lt}
use ao_eo.Core.Types.{Usage}
use ao_eo.Core.Pricing.{Pricing, wrap64, div_1000, charged, cost}

wrap64-small : (n : ℕ) → n < 2 ^ 63 → wrap64 n ≡ pos n
unfolding wrap64
wrap64-small n h =
    let e : n % 2 ^ 64 ≡ n = mod-eq_of_lt (omega arith) in rw (e, lt→ltb n (2 ^ 63) h) refl

charged-nonpos : (price : ℤ) → is_nonpos price ≡ true → charged price ≡ 0
unfolding charged
charged-nonpos (pos n) h = ground arith
charged-nonpos (negsuc n) h = ground arith

-- The exact charge of a use, in thousandths of a millionth
abbrev pub exact : Usage → Pricing → ℕ
exact u p =
    u.prompt_tokens * charged p.prompt_per_1k + u.completion_tokens * charged p.completion_per_1k

diff-zero : (n : ℕ) → diff n 0 ≡ pos n
diff-zero zero = refl
diff-zero (suc n) = ground arith

sum-exact :
    (a b : ℕ)
    → a < 2 ^ 63
    → b < 2 ^ 63
    → div_1000 (wrap64 a) +ℤ div_1000 (wrap64 b) ≡ pos (a / 1000 + b / 1000)
unfolding div_1000
sum-exact a b h k = rw (wrap64-small a h, wrap64-small b k) (diff-zero (a / 1000 + b / 1000))

both-true : (a b : Bool) → a && b ≡ true → (a ≡ true) × (b ≡ true)
both-true a b h = ground arith

cost-sum :
    (u : Usage) (p : Pricing)
    → u.prompt_tokens * charged p.prompt_per_1k < 2 ^ 63
    → u.completion_tokens * charged p.completion_per_1k < 2 ^ 63
    → cost u p
      ≡ pos (
          u.prompt_tokens * charged p.prompt_per_1k / 1000
          + u.completion_tokens * charged p.completion_per_1k / 1000)
unfolding cost
cost-sum u p h k = elim (Bool-cases (is_nonpos p.prompt_per_1k && is_nonpos p.completion_per_1k)) [
  | inl e ↦
      let free = both-true _ _ e in
      rw (e, charged-nonpos p.prompt_per_1k free.0, charged-nonpos p.completion_per_1k free.1)
        (ap pos (omega arith))
  | inr e ↦ rw e (sum-exact _ _ h k)
]

-- While neither product of a number of tokens and its price exceeds an int64, the cost is the exact charge rounded down, by less than
-- two millionths.
pub cost-exact :
    (u : Usage) (p : Pricing)
    → u.prompt_tokens * charged p.prompt_per_1k < 2 ^ 63
    → u.completion_tokens * charged p.completion_per_1k < 2 ^ 63
    → (c : ℕ) × (cost u p ≡ pos c) × (1000 * c ≤ exact u p) × (exact u p < 1000 * c + 2000)
cost-exact u p h k = (
  u.prompt_tokens * charged p.prompt_per_1k / 1000
      + u.completion_tokens * charged p.completion_per_1k / 1000,
  cost-sum u p h k,
  omega arith,
  omega arith,
)

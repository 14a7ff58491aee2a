-- ===== src/Privacy/Generator/Digits.antt =====
-- privacy/generator.go: the check digit of an identity number.
use ao_eo.Base.{
  ℕ, zero, suc, ◌+◌, ◌-◌, ◌*◌, ◌%◌, ◌<◌, ◌≡◌, refl, ◌∙◌, sym, List, [], ◌∷◌, ◌++◌, length, get_or,
  length-append, arith,
}
use ao_eo.Privacy.Generator.{weights, check_codes, weighted_sum, compute_id_check_digit}

-- Every weight is from 1 to 10.
abbrev Weights : List ℕ → Type 0
Weights [] = Unit {0}
Weights (w ∷ ws) = (0 < w) × (w < 11) × Weights ws

-- The check code determines the remainder.
code_lem : (r : ℕ) → r < 11 → get_or check_codes r 0 ≡ (12 - r) % 11
code_lem zero h = refl
code_lem (suc zero) h = refl
code_lem (suc (suc zero)) h = refl
code_lem (suc (suc (suc zero))) h = refl
code_lem (suc (suc (suc (suc zero)))) h = refl
code_lem (suc (suc (suc (suc (suc zero))))) h = refl
code_lem (suc (suc (suc (suc (suc (suc zero)))))) h = refl
code_lem (suc (suc (suc (suc (suc (suc (suc zero))))))) h = refl
code_lem (suc (suc (suc (suc (suc (suc (suc (suc zero)))))))) h = refl
code_lem (suc (suc (suc (suc (suc (suc (suc (suc (suc zero))))))))) h = refl
code_lem (suc (suc (suc (suc (suc (suc (suc (suc (suc (suc zero)))))))))) h = refl
code_lem (suc (suc (suc (suc (suc (suc (suc (suc (suc (suc (suc r))))))))))) h =
    absurd (omega arith)

code_of_rem : (r s : ℕ) → r < 11 → s < 11 → get_or check_codes r 0 ≡ get_or check_codes s 0 → r ≡ s
code_of_rem r s h k e =
    let same : (12 - r) % 11 ≡ (12 - s) % 11 = sym (code_lem r h) ∙ e ∙ code_lem s k in omega arith

-- Modulo 11 a weight can be cancelled.
cancel_weight :
    (w x a b : ℕ) → 0 < w → w < 11 → a < 10 → b < 10 → (x + a * w) % 11 ≡ (x + b * w) % 11 → a ≡ b
cancel_weight zero x a b p q r s e = absurd (omega arith)
cancel_weight (suc zero) x a b p q r s e = omega arith
cancel_weight (suc (suc zero)) x a b p q r s e = omega arith
cancel_weight (suc (suc (suc zero))) x a b p q r s e = omega arith
cancel_weight (suc (suc (suc (suc zero)))) x a b p q r s e = omega arith
cancel_weight (suc (suc (suc (suc (suc zero))))) x a b p q r s e = omega arith
cancel_weight (suc (suc (suc (suc (suc (suc zero)))))) x a b p q r s e = omega arith
cancel_weight (suc (suc (suc (suc (suc (suc (suc zero))))))) x a b p q r s e = omega arith
cancel_weight (suc (suc (suc (suc (suc (suc (suc (suc zero)))))))) x a b p q r s e = omega arith
cancel_weight (suc (suc (suc (suc (suc (suc (suc (suc (suc zero))))))))) x a b p q r s e =
    omega arith
cancel_weight (suc (suc (suc (suc (suc (suc (suc (suc (suc (suc zero)))))))))) x a b p q r s e =
    omega arith
cancel_weight (suc (suc (suc (suc (suc (suc (suc (suc (suc (suc (suc w))))))))))) x a b p q r s e =
    absurd (omega arith)

-- The sum as a function of the digit at one place
record AtPlace (before after ws : List ℕ) : Type 0 where
  rest : ℕ
  weight : ℕ
  above : 0 < weight
  below : weight < 11
  sums : (a : ℕ) → weighted_sum (before ++ a ∷ after) ws ≡ rest + a * weight

at_place :
    (before after ws : List ℕ) → Weights ws → length before < length ws → AtPlace before after ws
unfolding weighted_sum
at_place before after [] h k = absurd (omega arith)
at_place [] after (w ∷ ws) h k = record {
  rest = weighted_sum after ws;
  weight = w;
  above = h.0;
  below = h.1;
  sums = λ a. omega arith;
}
at_place (d ∷ before) after (w ∷ ws) h k =
    let p = at_place before after ws h.2 (omega arith) in
    record {
      rest = d * w + p.rest;
      weight = p.weight;
      above = p.above;
      below = p.below;
      sums = λ a. omega (arith, p.sums a);
    }

rem_lt : (n : ℕ) → n % 11 < 11
rem_lt n = omega arith

-- The check digit of an identity number tells apart any two numbers of 17 digits that differ in
-- one digit, so that a wrong digit is found.
pub compute_id_check_digit-detects :
    (before after : List ℕ) (a b : ℕ)
    → length (before ++ a ∷ after) ≡ 17
    → a < 10
    → b < 10
    → compute_id_check_digit (before ++ a ∷ after) ≡ compute_id_check_digit (before ++ b ∷ after)
    → a ≡ b
unfolding compute_id_check_digit
compute_id_check_digit-detects before after a b len p q e =
    let len' : length (before ++ b ∷ after) ≡ 17 =
      length-append before (b ∷ after) ∙ sym (length-append before (a ∷ after)) ∙ len in
    let place =
      at_place before after weights (omega arith)
        (omega (arith, length-append before (a ∷ after))) in
    let same = code_of_rem _ _ (rem_lt _) (rem_lt _) (rw (len, len') at e) in
    cancel_weight place.weight place.rest a b place.above place.below p q
      (rw (place.sums a, place.sums b) at same)

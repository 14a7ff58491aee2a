-- ===== src/Privacy/Generator.antt =====
-- privacy/generator.go: FakeGenerator. Here is what it makes without its random source, with texts of
-- digits as their values; Fakes has the rest.
pub mod Digits
pub mod Texts
pub mod Fakes
mod Tests
use ao_eo.Base.{
  ℕ, zero, suc, ◌+◌, ◌*◌, ◌%◌, String, Bool, true, false, List, [], ◌∷◌, length, get_or,
  if◌then◌else◌, ◌==◌,
}

-- genericMask: one star for each character
unfoldable pub generic_mask : String → String
generic_mask String.[] = ""
generic_mask (String.◌∷◌ c s) = String.◌∷◌ "*" (generic_mask s)

-- The weights of computeIDCheckDigit
abbrev pub weights : List ℕ
weights = 7 ∷ 9 ∷ 10 ∷ 5 ∷ 8 ∷ 4 ∷ 2 ∷ 1 ∷ 6 ∷ 3 ∷ 7 ∷ 9 ∷ 10 ∷ 5 ∷ 8 ∷ 4 ∷ 2 ∷ []

-- The values of the check codes, with ten for X
abbrev pub check_codes : List ℕ
check_codes = 1 ∷ 0 ∷ 10 ∷ 9 ∷ 8 ∷ 7 ∷ 6 ∷ 5 ∷ 4 ∷ 3 ∷ 2 ∷ []

-- The sum of the digits by their weights
unfoldable pub weighted_sum : List ℕ → List ℕ → ℕ
weighted_sum [] ws = 0
weighted_sum (d ∷ ds) [] = 0
weighted_sum (d ∷ ds) (w ∷ ws) = d * w + weighted_sum ds ws

-- computeIDCheckDigit
unfoldable pub compute_id_check_digit : List ℕ → ℕ
unfolding weighted_sum
compute_id_check_digit ds =
    if length ds == 17 then get_or check_codes (weighted_sum ds weights % 11) 0 else 10

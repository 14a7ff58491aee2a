-- ===== src/Privacy/Generator/Tests.antt =====
-- privacy/generator.go: the identity number 11010519491231002X.
use ao_eo.Base.{ℕ, ◌≡◌, refl, List, [], ◌∷◌, ◌++◌}
use ao_eo.Privacy.Generator.{compute_id_check_digit}

abbrev before : List ℕ
before = 1 ∷ 1 ∷ 0 ∷ 1 ∷ 0 ∷ 5 ∷ 1 ∷ 9 ∷ 4 ∷ 9 ∷ 1 ∷ 2 ∷ 3 ∷ 1 ∷ 0 ∷ 0 ∷ []

known_digit : compute_id_check_digit (before ++ 2 ∷ []) ≡ 10
unfolding compute_id_check_digit
known_digit = refl

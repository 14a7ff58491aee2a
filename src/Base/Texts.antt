-- ===== src/Base/Texts.antt =====
-- Texts have a decidable equality; their bytes in UTF-8, and lines of texts.
use Prim.Native.Nat.{ℕ, ◌+◌}
use Prim.Native.Char.{Char, code}
use Prim.Native.String.{String}
use mathlib.Core.List.{List, [], ◌∷◌}
use mathlib.Core.HLevel.{hedberg}
use mathlib.Core.Path.{◌≡◌}
use mathlib.Core.Logic.{inl, inr}
use mathlib.Core.Bool.{true, false}
use text.Mathlib.Text.{◌==◌ as str_eq}
use text.Mathlib.TextEquality.{eq_iff}
use ao_eo.Base.Tests.{Bool-cases, ltb, if◌then◌else◌}

pub differs : (s t : String) → str_eq s t ≡ false → s ≡ t → ⊥
differs s t h e = (let hit = (eq_iff s t).1 e in clash hit)
  where
    clash : str_eq s t ≡ true → ⊥
    clash k = cc

pub String-discrete : Discrete String
String-discrete s t = elim (Bool-cases (str_eq s t)) [
  | inl e ↦ yes ((eq_iff s t).0 e)
  | inr e ↦ no (differs s t e)
]

pub String-set : IsSet String
String-set = hedberg String-discrete

-- The bytes of a character and of a text in UTF-8
abbrev pub rune_len : Char → ℕ
rune_len c =
    if ltb (code c) 128
    then 1
    else if ltb (code c) 2048
    then 2
    else if ltb (code c) 65536
    then 3
    else 4

abbrev pub byte_len : String → ℕ
byte_len String.[] = 0
byte_len (String.◌∷◌ c s) = rune_len c + byte_len s

-- A character in front of the first text
abbrev pub push_char : Char → List String → List String
push_char c [] = String.◌∷◌ c "" ∷ []
push_char c (l ∷ ls) = String.◌∷◌ c l ∷ ls

-- ===== src/Base/Codes.antt =====
-- A text as its bytes, if it is ASCII. `String` has its own `[]` and `∷`.
use Prim.Native.Nat.{ℕ}
use Prim.Native.Char.{code}
use Prim.Native.String.{String}
use mathlib.Core.List.{List, [], ◌∷◌}

-- A text by its code points, or by its bytes where the code works on bytes
abbrev pub Text : Type 0
Text = List ℕ

abbrev pub codes : String → List ℕ
codes String.[] = []
codes (String.◌∷◌ c s) = code c ∷ codes s

-- ===== src/Privacy/Generator/Texts.antt =====
-- privacy/generator.go: the texts that FakeGenerator takes apart and puts together.
use Prim.Native.Char.{Char, code}
use ao_eo.Base.{
  ℕ, zero, suc, ◌-◌, ◌/◌, ◌%◌, String, Bool, false, ◌||◌, List, [], ◌∷◌, get_or, ltb, ◌==◌,
  if◌then◌else◌, str_eq, append, size, push_char,
}

abbrev pub digits : List String
digits = "0" ∷ "1" ∷ "2" ∷ "3" ∷ "4" ∷ "5" ∷ "6" ∷ "7" ∷ "8" ∷ "9" ∷ []

abbrev pub lower_letters : List String
lower_letters =
    "a" ∷ "b" ∷ "c" ∷ "d" ∷ "e" ∷ "f" ∷ "g" ∷ "h" ∷ "i" ∷ "j" ∷ "k" ∷ "l" ∷ "m" ∷ "n" ∷ "o" ∷ "p"
    ∷ "q" ∷ "r" ∷ "s" ∷ "t" ∷ "u" ∷ "v" ∷ "w" ∷ "x" ∷ "y" ∷ "z" ∷ []

abbrev pub upper_letters : List String
upper_letters =
    "A" ∷ "B" ∷ "C" ∷ "D" ∷ "E" ∷ "F" ∷ "G" ∷ "H" ∷ "I" ∷ "J" ∷ "K" ∷ "L" ∷ "M" ∷ "N" ∷ "O" ∷ "P"
    ∷ "Q" ∷ "R" ∷ "S" ∷ "T" ∷ "U" ∷ "V" ∷ "W" ∷ "X" ∷ "Y" ∷ "Z" ∷ []

-- fmt's %d, of a number of at most so many digits
unfoldable pub decimal : ℕ → ℕ → String
decimal zero n = ""
decimal (suc k) n =
    let front = decimal k (n / 10) in
    if ltb n 10 then get_or digits n "" else append front (get_or digits (n % 10) "")

abbrev pub zeros : ℕ → String → String
zeros zero s = s
zeros (suc k) s = append "0" (zeros k s)

-- %d of the numbers here, and %0kd
abbrev pub shown : ℕ → String
shown n = decimal 9 n

abbrev pub padded : ℕ → ℕ → String
padded k n = zeros (k - size (shown n)) (shown n)

-- The value of a digit, for the check digit of an identity number
abbrev pub values_of : String → List ℕ
values_of String.[] = []
values_of (String.◌∷◌ c s) = (code c - 48) ∷ values_of s

abbrev pub check_text : ℕ → String
check_text n = if n == 10 then "X" else shown n

-- strings.Split by one character
unfoldable pub split_on : Char → String → List String
split_on d String.[] = "" ∷ []
split_on d (String.◌∷◌ c s) =
    let rest = split_on d s in if code c == code d then "" ∷ rest else push_char c rest

abbrev pub last_of : List String → String
last_of [] = ""
last_of (s ∷ []) = s
last_of (s ∷ t ∷ ss) = last_of (t ∷ ss)

abbrev pub joined : List String → String
joined [] = ""
joined (s ∷ ss) = append s (joined ss)

abbrev pub any_char : (Char → Bool) → String → Bool
any_char p String.[] = false
any_char p (String.◌∷◌ c s) = p c || any_char p s

abbrev pub begins_with_one : String → Bool
begins_with_one String.[] = false
begins_with_one (String.◌∷◌ c s) = code c == 49

-- The top-level domains that fakeDomain keeps
abbrev pub kept_suffix : String → Bool
kept_suffix s = str_eq s "com" || str_eq s "cn" || str_eq s "net" || str_eq s "org"

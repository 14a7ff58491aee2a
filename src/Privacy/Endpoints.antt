-- ===== src/Privacy/Endpoints.antt =====
-- privacy/model/loadbalancer.go and privacy/gateway.go: splitEndpoints, which both have. A text is
-- its code points.
use mathlib.Core.List.{reverse, reverse-append}
use ao_eo.Base.{
  ℕ, ◌≡◌, refl, ap, ◌∙◌, Bool, true, false, ◌&&◌, ◌||◌, List, [], ◌∷◌, ◌++◌, if◌then◌else◌, ◌==◌,
  leb, Text, arith, Bool-cases, inl, inr,
}

-- unicode.IsSpace
unfoldable pub is_space : ℕ → Bool
is_space c =
    leb 9 c && leb c 13
    || c == 32
    || c == 0x85
    || c == 0xA0
    || c == 0x1680
    || leb 0x2000 c && leb c 0x200A
    || c == 0x2028
    || c == 0x2029
    || c == 0x202F
    || c == 0x205F
    || c == 0x3000

unfoldable pub trim_left : Text → Text
trim_left [] = []
trim_left (c ∷ s) = let rest = trim_left s in if is_space c then rest else c ∷ s

-- strings.TrimSpace
unfoldable pub trim_space : Text → Text
unfolding trim_left is_space
trim_space s = reverse (trim_left (reverse (trim_left s)))

abbrev push : ℕ → List Text → List Text
push c [] = (c ∷ []) ∷ []
push c (p ∷ ps) = (c ∷ p) ∷ ps

-- strings.Split, at a separator of one character
unfoldable pub split_on : ℕ → Text → List Text
split_on sep [] = [] ∷ []
split_on sep (c ∷ s) = let rest = split_on sep s in if c == sep then [] ∷ rest else push c rest

abbrev pub is_nil {ℓ} : {A : Type ℓ} → List A → Bool
is_nil [] = true
is_nil (x ∷ xs) = false

abbrev keep : Text → List Text → List Text
keep t rest = if is_nil t then rest else t ∷ rest

unfoldable pub kept_parts : List Text → List Text
unfolding trim_space
kept_parts [] = []
kept_parts (p ∷ ps) = keep (trim_space p) (kept_parts ps)

unfoldable pub split_endpoints : Text → List Text
unfolding kept_parts split_on
split_endpoints [] = []
split_endpoints (c ∷ s) = kept_parts (split_on b',' (c ∷ s))

all_space : Text → Bool
all_space [] = true
all_space (c ∷ s) = is_space c && all_space s

-- Only commas and white space
unfoldable pub all_blank : Text → Bool
all_blank [] = true
all_blank (c ∷ s) = (c == b',' || is_space c) && all_blank s

every_space : List Text → Bool
every_space [] = true
every_space (p ∷ ps) = all_space p && every_space ps

trim_left-nil : (s : Text) → is_nil (trim_left s) ≡ all_space s
unfolding trim_left all_space
trim_left-nil [] = refl
trim_left-nil (c ∷ s) = elim (Bool-cases (is_space c)) [
  | inl e ↦ rw e (trim_left-nil s)
  | inr e ↦ rw e
]

all_space-trim_left : (s : Text) → all_space (trim_left s) ≡ all_space s
unfolding trim_left all_space
all_space-trim_left [] = refl
all_space-trim_left (c ∷ s) = elim (Bool-cases (is_space c)) [
  | inl e ↦ rw e (all_space-trim_left s)
  | inr e ↦ rw (e, all_space, e)
]

all_space-append : (s t : Text) → all_space (s ++ t) ≡ (all_space s && all_space t)
unfolding all_space
all_space-append [] t = refl
all_space-append (c ∷ s) t = ground (arith, all_space-append s t)

all_space-reverse : (s : Text) → all_space (reverse s) ≡ all_space s
unfolding all_space
all_space-reverse [] = refl
all_space-reverse (c ∷ s) =
    ap all_space (reverse-append (c ∷ []) s)
    ∙ all_space-append (reverse s) (c ∷ [])
    ∙ ground (arith, all_space-reverse s)

is_nil-append {ℓ} : {A : Type ℓ} (xs : List A) (x : A) → is_nil (xs ++ x ∷ []) ≡ false
is_nil-append [] x = refl
is_nil-append (y ∷ ys) x = refl

is_nil-reverse {ℓ} : {A : Type ℓ} (xs : List A) → is_nil (reverse xs) ≡ is_nil xs
is_nil-reverse [] = refl
is_nil-reverse (x ∷ xs) = ap is_nil (reverse-append (x ∷ []) xs) ∙ is_nil-append (reverse xs) x

trim_space-nil : (s : Text) → is_nil (trim_space s) ≡ all_space s
unfolding trim_space
trim_space-nil s =
    is_nil-reverse (trim_left (reverse (trim_left s)))
    ∙ trim_left-nil (reverse (trim_left s))
    ∙ all_space-reverse (trim_left s)
    ∙ all_space-trim_left s

kept_parts-nil : (ps : List Text) → is_nil (kept_parts ps) ≡ every_space ps
unfolding kept_parts every_space
kept_parts-nil [] = refl
kept_parts-nil (p ∷ ps) = elim (Bool-cases (all_space p)) [
  | inl e ↦ rw (e, trim_space-nil p ∙ e) (kept_parts-nil ps)
  | inr e ↦ rw (e, trim_space-nil p ∙ e)
]

every_space-push :
    (c : ℕ) (ps : List Text) → every_space (push c ps) ≡ (is_space c && every_space ps)
unfolding every_space all_space
every_space-push c [] = ground arith
every_space-push c (p ∷ ps) = ground arith

every_space-split_on : (s : Text) → every_space (split_on b',' s) ≡ all_blank s
unfolding split_on all_blank every_space all_space
every_space-split_on [] = refl
every_space-split_on (c ∷ s) = elim (Bool-cases (c == b',')) [
  | inl e ↦ rw e (every_space-split_on s)
  | inr e ↦
      rw e (every_space-push c (split_on b',' s) ∙ ap (◌&&◌ (is_space c)) (every_space-split_on s))
]

-- splitEndpoints gives no endpoint exactly if the text has only commas and white space.
pub split_endpoints-nil : (s : Text) → is_nil (split_endpoints s) ≡ all_blank s
unfolding split_endpoints all_blank
split_endpoints-nil [] = refl
split_endpoints-nil (c ∷ s) = kept_parts-nil (split_on b',' (c ∷ s)) ∙ every_space-split_on (c ∷ s)

-- ===== src/Base/Substring.antt =====
-- strings.ReplaceAll and strings.Contains, on texts as sequences of characters.
use Prim.Native.Nat.{ℕ, zero, suc, ◌-◌}
use Prim.Native.Char.{Char, code}
use Prim.Native.String.{String}
use mathlib.Core.Path.{◌≡◌, refl, ◌∙◌}
use mathlib.Core.Logic.{inl, inr}
use mathlib.Core.Bool.{Bool, true, false, ◌&&◌, ◌||◌}
use native.Mathlib.Omega.{arith}
use ao_eo.Base.Tests.{◌==◌, Bool-cases}

-- Concatenation that computes by its clauses
abbrev pub append : String → String → String
append String.[] t = t
append (String.◌∷◌ c s) t = String.◌∷◌ c (append s t)

abbrev pub size : String → ℕ
size String.[] = 0
size (String.◌∷◌ c s) = suc (size s)

unfoldable pub is_prefix : String → String → Bool
is_prefix String.[] s = true
is_prefix (String.◌∷◌ p ps) String.[] = false
is_prefix (String.◌∷◌ p ps) (String.◌∷◌ c s) = code p == code c && is_prefix ps s

-- strings.TrimPrefix, where the prefix is there
unfoldable pub drop_chars : String → String → String
drop_chars String.[] s = s
drop_chars (String.◌∷◌ p ps) String.[] = ""
drop_chars (String.◌∷◌ p ps) (String.◌∷◌ c s) = drop_chars ps s

-- strings.Contains
unfoldable pub occurs : String → String → Bool
occurs p String.[] = is_prefix p String.[]
occurs p (String.◌∷◌ c s) = is_prefix p (String.◌∷◌ c s) || occurs p s

-- For a pattern that is not empty; `skip` characters of a match are still to be passed over.
unfoldable pub replace_from : String → String → ℕ → String → String
replace_from old new skip String.[] = String.[]
replace_from old new (suc skip) (String.◌∷◌ c s) = replace_from old new skip s
replace_from old new zero (String.◌∷◌ c s) = elim (is_prefix old (String.◌∷◌ c s)) [
  | true ↦ append new (replace_from old new (size old - 1) s)
  | false ↦ String.◌∷◌ c (replace_from old new zero s)
]

-- The empty pattern is found before each character and at the end.
unfoldable pub interleave : String → String → String
interleave new String.[] = new
interleave new (String.◌∷◌ c s) = append new (String.◌∷◌ c (interleave new s))

-- strings.ReplaceAll(s, old, new)
unfoldable pub replace_all : String → String → String → String
unfolding replace_from interleave
replace_all String.[] new s = interleave new s
replace_all (String.◌∷◌ o old) new s = replace_from (String.◌∷◌ o old) new zero s

-- Whether a character stands in a text
unfoldable pub has : Char → String → Bool
has d String.[] = false
has d (String.◌∷◌ c s) = code d == code c || has d s

-- Whether two texts agree as far as both go: one of them begins the other.
unfoldable pub agree : String → String → Bool
agree String.[] t = true
agree (String.◌∷◌ c s) String.[] = true
agree (String.◌∷◌ c s) (String.◌∷◌ d t) = code c == code d && agree s t

-- Whether the second text could start inside the first: it agrees with what the first has from some
-- character on.
unfoldable pub meets : String → String → Bool
unfolding agree
meets String.[] t = false
meets (String.◌∷◌ c s) t = agree (String.◌∷◌ c s) t || meets s t

-- No occurrence of the one text can overlap one of the other, and neither is empty.
abbrev pub Clear : String → String → Type 0
Clear String.[] t = ⊥
Clear (String.◌∷◌ d s) String.[] = ⊥
Clear (String.◌∷◌ d s) (String.◌∷◌ m t) =
    (meets (String.◌∷◌ m t) (String.◌∷◌ d s) ≡ false)
    × (meets (String.◌∷◌ d s) (String.◌∷◌ m t) ≡ false)

module _ (old new : String) (c : Char) (s : String) where
  replace_from-skip :
      (k : ℕ) → replace_from old new (suc k) (String.◌∷◌ c s) ≡ replace_from old new k s
  unfolding replace_from
  replace_from-skip k = refl

  replace_from-hit :
      is_prefix old (String.◌∷◌ c s) ≡ true
      → replace_from old new zero (String.◌∷◌ c s)
        ≡ append new (replace_from old new (size old - 1) s)
  unfolding replace_from
  replace_from-hit h = rw (h, replace_from)

  replace_from-miss :
      is_prefix old (String.◌∷◌ c s) ≡ false
      → replace_from old new zero (String.◌∷◌ c s) ≡ String.◌∷◌ c (replace_from old new zero s)
  unfolding replace_from
  replace_from-miss h = rw (h, replace_from)

occurs_tail :
    (p : String) (c : Char) (s : String) → occurs p (String.◌∷◌ c s) ≡ false → occurs p s ≡ false
unfolding occurs
occurs_tail p c s h = ground arith

occurs_head :
    (p : String) (c : Char) (s : String)
    → occurs p (String.◌∷◌ c s) ≡ false
    → is_prefix p (String.◌∷◌ c s) ≡ false
unfolding occurs
occurs_head p c s h = ground arith

occurs-cons :
    (p : String) (c : Char) (s : String)
    → is_prefix p (String.◌∷◌ c s) ≡ false
    → occurs p s ≡ false
    → occurs p (String.◌∷◌ c s) ≡ false
unfolding occurs
occurs-cons p c s h k = ground arith

agree_comm : (s t : String) → agree s t ≡ agree t s
unfolding agree
agree_comm String.[] String.[] = refl
agree_comm String.[] (String.◌∷◌ d t) = refl
agree_comm (String.◌∷◌ c s) String.[] = refl
agree_comm (String.◌∷◌ c s) (String.◌∷◌ d t) = ground (arith, agree_comm s t)

-- A text that does not agree with `f` does not begin what begins with `f`.
not_prefix-append : (q f r : String) → agree q f ≡ false → is_prefix q (append f r) ≡ false
unfolding agree is_prefix
not_prefix-append String.[] f r h = absurd (cc h)
not_prefix-append (String.◌∷◌ d q) String.[] r h = absurd (cc h)
not_prefix-append (String.◌∷◌ d q) (String.◌∷◌ c f) r h = ground (arith, not_prefix-append q f r)

meets_head :
    (c : Char) (s t : String) → meets (String.◌∷◌ c s) t ≡ false → agree (String.◌∷◌ c s) t ≡ false
unfolding meets
meets_head c s t h = ground arith

meets_tail : (c : Char) (s t : String) → meets (String.◌∷◌ c s) t ≡ false → meets s t ≡ false
unfolding meets
meets_tail c s t h = ground arith

-- A prefix of the replaced text in which `new` could not start was there before.
prefix_of-replace :
    (old new p s : String)
    → meets p new ≡ false
    → is_prefix p (replace_from old new zero s) ≡ true
    → is_prefix p s ≡ true
unfolding is_prefix
prefix_of-replace old new String.[] s h e = refl
prefix_of-replace old new (String.◌∷◌ d p) String.[] h e = unfold replace_from in e
prefix_of-replace old new (String.◌∷◌ d p) (String.◌∷◌ c s) h e =
    elim (Bool-cases (is_prefix old (String.◌∷◌ c s))) [
      | inl hit ↦
          let seen = rw (replace_from-hit old new c s hit) at e in
          let out =
            not_prefix-append (String.◌∷◌ d p) new (replace_from old new (size old - 1) s)
              (meets_head d p new h) in
          absurd (cc (seen, out))
      | inr miss ↦
          let seen = rw (replace_from-miss old new c s miss) at e in
          ground (arith, prefix_of-replace old new p s, meets_tail d p new h)
    ]

-- An occurrence does not start inside a text in which the pattern could not start.
occurs-append :
    (q f r : String) → meets f q ≡ false → occurs q r ≡ false → occurs q (append f r) ≡ false
occurs-append q String.[] r h k = k
occurs-append q (String.◌∷◌ c f) r h k =
    occurs-cons q c (append f r)
      (not_prefix-append q (String.◌∷◌ c f) r (agree_comm q (String.◌∷◌ c f) ∙ meets_head c f q h))
      (occurs-append q f r (meets_tail c f q h) k)

-- Where no occurrence of the pattern starts, the replacement starts none.
not_prefix-replace :
    (old new p s : String)
    → meets p new ≡ false
    → is_prefix p s ≡ false
    → is_prefix p (replace_from old new zero s) ≡ false
not_prefix-replace old new p s h e = elim (Bool-cases (is_prefix p (replace_from old new zero s))) [
  | inl yes_ ↦ let seen = prefix_of-replace old new p s h yes_ in cc
  | inr not_ ↦ not_
]

module _ (from to : String) (inside : meets to from ≡ false) (around : meets from to ≡ false)
    (some_ : is_prefix from String.[] ≡ false) where
  -- A pattern that does not occur still does not after another one is replaced.
  occurs-replace_other :
      (old : String) (skip : ℕ) (s : String)
      → occurs from s ≡ false
      → occurs from (replace_from old to skip s) ≡ false
  occurs-replace_other old skip String.[] h = unfold replace_from in h
  occurs-replace_other old (suc skip) (String.◌∷◌ c s) h =
      rw (replace_from-skip old to c s skip)
        (occurs-replace_other old skip s (occurs_tail from c s h))
  occurs-replace_other old zero (String.◌∷◌ c s) h =
      elim (Bool-cases (is_prefix old (String.◌∷◌ c s))) [
        | inl hit ↦ rw (replace_from-hit old to c s hit) (
            occurs-append from to _ inside
              (occurs-replace_other old (size old - 1) s (occurs_tail from c s h)))
        | inr miss ↦
            let gone =
              not_prefix-replace old to from (String.◌∷◌ c s) around (occurs_head from c s h) in
            rw (replace_from-miss old to c s miss) (
              occurs-cons from c _ (rw (replace_from-miss old to c s miss) at gone)
                (occurs-replace_other old zero s (occurs_tail from c s h)))
      ]

  -- After the replacement the pattern is gone.
  occurs-replace_self : (skip : ℕ) (s : String) → occurs from (replace_from from to skip s) ≡ false
  occurs-replace_self skip String.[] = unfold replace_from occurs in some_
  occurs-replace_self (suc skip) (String.◌∷◌ c s) =
      rw (replace_from-skip from to c s skip) (occurs-replace_self skip s)
  occurs-replace_self zero (String.◌∷◌ c s) = elim (Bool-cases (is_prefix from (String.◌∷◌ c s))) [
    | inl hit ↦
        rw (replace_from-hit from to c s hit)
          (occurs-append from to _ inside (occurs-replace_self (size from - 1) s))
    | inr miss ↦
        let gone = not_prefix-replace from to from (String.◌∷◌ c s) around miss in
        rw (replace_from-miss from to c s miss) (
          occurs-cons from c _ (rw (replace_from-miss from to c s miss) at gone)
            (occurs-replace_self zero s))
  ]

-- What is replaced by a text clear of it is gone.
pub replace_all-gone : (o f s : String) → Clear o f → occurs o (replace_all o f s) ≡ false
unfolding replace_all is_prefix
replace_all-gone String.[] f s h = absurd h
replace_all-gone (String.◌∷◌ d o) String.[] s h = absurd h
replace_all-gone (String.◌∷◌ d o) (String.◌∷◌ m f) s h =
    occurs-replace_self (String.◌∷◌ d o) (String.◌∷◌ m f) h.0 h.1 refl zero s

-- What does not occur still does not after a replacement by a text clear of it.
pub replace_all-keeps_out :
    (q o f s : String)
    → Clear q f
    → Clear o f
    → occurs q s ≡ false
    → occurs q (replace_all o f s) ≡ false
unfolding replace_all is_prefix
replace_all-keeps_out String.[] o f s h k e = absurd h
replace_all-keeps_out (String.◌∷◌ d q) String.[] f s h k e = absurd k
replace_all-keeps_out (String.◌∷◌ d q) (String.◌∷◌ c o) String.[] s h k e = absurd h
replace_all-keeps_out (String.◌∷◌ d q) (String.◌∷◌ c o) (String.◌∷◌ m f) s h k e =
    occurs-replace_other (String.◌∷◌ d q) (String.◌∷◌ m f) h.0 h.1 refl (String.◌∷◌ c o) zero s e

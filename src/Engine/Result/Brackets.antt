-- ===== src/Engine/Result/Brackets.antt =====
-- internal/engine/result.go: what the bracket scan finds.
use ao_eo.Base.{
  ℕ, suc, ◌+◌, ◌-◌, ◌≡◌, ◌≢◌, refl, ap, sym, ◌∙◌, true, false, List, [], ◌∷◌, ◌++◌, Option, none,
  some, ◌==◌, if◌then◌else◌, arith,
}
use ao_eo.Engine.Result.{
  quote, backslash, Mode, plain, in_string, Scan, scan_byte, prepend, scan, from_first, find_first,
  go_on,
}

-- The rest of a string literal, up to its closing quote
pub data Text : List ℕ → Type 0 where
  text_end : Text (quote ∷ [])
  text_byte : (x : ℕ) (xs : List ℕ) → x ≢ quote → x ≢ backslash → Text xs → Text (x ∷ xs)
  text_escape : (x : ℕ) (xs : List ℕ) → Text xs → Text (backslash ∷ x ∷ xs)

-- What may stand between two matching brackets
pub data Body (opening closing : ℕ) : List ℕ → Type 0 where
  body_end : Body opening closing []
  body_byte :
      (x : ℕ) (xs : List ℕ)
      → x ≢ quote
      → x ≢ opening
      → x ≢ closing
      → Body opening closing xs
      → Body opening closing (x ∷ xs)
  body_text :
      (ts xs : List ℕ)
      → Text ts
      → Body opening closing xs
      → Body opening closing (quote ∷ (ts ++ xs))
  body_nest :
      (ys xs : List ℕ)
      → Body opening closing ys
      → Body opening closing xs
      → Body opening closing (opening ∷ (ys ++ closing ∷ xs))

-- The brackets are neither equal nor quotes.
pub record Brackets (opening closing : ℕ) : Type 0 where
  pub differ : opening ≢ closing
  pub opening_plain : opening ≢ quote
  pub closing_plain : closing ≢ quote

abbrev pub Without : ℕ → List ℕ → Type 0
Without x [] = Unit {0}
Without x (y ∷ ys) = (y ≢ x) × Without x ys

pub append_assoc : (xs ys zs : List ℕ) → (xs ++ ys) ++ zs ≡ xs ++ (ys ++ zs)
append_assoc [] ys zs = refl
append_assoc (x ∷ xs) ys zs = ap (◌∷◌ x) (append_assoc xs ys zs)

pub unequal : (x y : ℕ) → x ≢ y → (x == y) ≡ false
unequal x y h = ground arith

pub same_byte : (x : ℕ) → (x == x) ≡ true
same_byte x = ground arith

module _ (opening closing : ℕ) where
  prepend-append :
      (xs ys : List ℕ) (o : Option (List ℕ))
      → prepend opening closing xs (prepend opening closing ys o)
        ≡ prepend opening closing (xs ++ ys) o
  prepend-append xs ys none = refl
  prepend-append xs ys (some zs) = ap some (sym (append_assoc xs ys zs))

  prepend-nil : (o : Option (List ℕ)) → prepend opening closing [] o ≡ o
  prepend-nil none = refl
  prepend-nil (some zs) = refl

  -- A byte that does not close the last bracket
  pub scan-go :
      (depth depth' : ℕ) (mode mode' : Mode) (x : ℕ) (xs : List ℕ)
      → scan_byte opening closing depth mode x ≡ go_on depth' mode'
      → scan opening closing depth mode (x ∷ xs)
        ≡ prepend opening closing (x ∷ []) (scan opening closing depth' mode' xs)
  unfolding scan
  scan-go depth depth' mode mode' x xs e =
      ap
        (λ (next : Scan).
          if next.closes
          then some (x ∷ [])
          else prepend opening closing (x ∷ []) (scan opening closing next.depth next.mode xs))
        e

  pub scan_byte-text :
      (depth x : ℕ)
      → x ≢ quote
      → x ≢ backslash
      → scan_byte opening closing depth in_string x ≡ go_on depth in_string
  unfolding scan_byte
  scan_byte-text depth x p q = rw (unequal x backslash q, unequal x quote p) refl

  scan_byte-quote :
      (depth : ℕ) → scan_byte opening closing depth plain quote ≡ go_on depth in_string
  unfolding scan_byte
  scan_byte-quote depth = refl

  pub scan_byte-plain :
      (depth x : ℕ)
      → x ≢ quote
      → x ≢ opening
      → x ≢ closing
      → scan_byte opening closing depth plain x ≡ go_on depth plain
  unfolding scan_byte
  scan_byte-plain depth x p q r =
      rw (unequal x quote p, unequal x opening q, unequal x closing r) refl

  pub scan_byte-opening :
      (depth : ℕ)
      → opening ≢ quote
      → scan_byte opening closing depth plain opening ≡ go_on (depth + 1) plain
  unfolding scan_byte
  scan_byte-opening depth p = rw (unequal opening quote p, same_byte opening) refl

  scan_byte-closing :
      (depth : ℕ)
      → closing ≢ quote
      → opening ≢ closing
      → scan_byte opening closing (suc (suc depth)) plain closing ≡ go_on (suc depth) plain
  unfolding scan_byte
  scan_byte-closing depth p q =
      let q' : closing ≢ opening = λ e. q (sym e) in
      let less : suc (suc depth) - 1 ≡ suc depth = omega arith in
      let more : (suc depth == 0) ≡ false = ground arith in
      rw (unequal closing quote p, unequal closing opening q', same_byte closing, less, more) refl

  scan-last :
      (rest : List ℕ)
      → closing ≢ quote
      → opening ≢ closing
      → scan opening closing 1 plain (closing ∷ rest) ≡ some (closing ∷ [])
  unfolding scan
  scan-last rest p q =
      let q' : closing ≢ opening = λ e. q (sym e) in
      rw (unequal closing quote p, unequal closing opening q', same_byte closing) refl

  scan-Text :
      (depth : ℕ) (ts rest : List ℕ)
      → Text ts
      → scan opening closing depth in_string (ts ++ rest)
        ≡ prepend opening closing ts (scan opening closing depth plain rest)
  unfolding scan
  scan-Text depth _ rest text_end = refl
  scan-Text depth _ rest (text_byte x xs p q t) =
      scan-go depth depth in_string in_string x (xs ++ rest) (scan_byte-text depth x p q)
      ∙ ap (prepend opening closing (x ∷ [])) (scan-Text depth xs rest t)
      ∙ prepend-append (x ∷ []) xs _
  scan-Text depth _ rest (text_escape x xs t) =
      ap (λ o. prepend opening closing (backslash ∷ []) (prepend opening closing (x ∷ []) o))
        (scan-Text depth xs rest t)
      ∙ ap (prepend opening closing (backslash ∷ [])) (prepend-append (x ∷ []) xs _)
      ∙ prepend-append (backslash ∷ []) (x ∷ xs) _

module _ (opening closing : ℕ) (b : Brackets opening closing) where
  -- Inside brackets, the scan passes over a body.
  scan-Body :
      (depth : ℕ) (bs rest : List ℕ)
      → Body opening closing bs
      → scan opening closing (suc depth) plain (bs ++ rest)
        ≡ prepend opening closing bs (scan opening closing (suc depth) plain rest)
  scan-Body depth _ rest body_end = sym (prepend-nil opening closing _)
  scan-Body depth _ rest (body_byte x xs p q r t) =
      scan-go opening closing (suc depth) (suc depth) plain plain x (xs ++ rest)
        (scan_byte-plain opening closing (suc depth) x p q r)
      ∙ ap (prepend opening closing (x ∷ [])) (scan-Body depth xs rest t)
      ∙ prepend-append opening closing (x ∷ []) xs _
  scan-Body depth _ rest (body_text ts xs t u) =
      ap (λ zs. scan opening closing (suc depth) plain (quote ∷ zs)) (append_assoc ts xs rest)
      ∙ scan-go opening closing (suc depth) (suc depth) plain in_string quote (ts ++ (xs ++ rest))
          (scan_byte-quote opening closing (suc depth))
      ∙ ap (prepend opening closing (quote ∷ [])) (
          scan-Text opening closing (suc depth) ts (xs ++ rest) t
          ∙ ap (prepend opening closing ts) (scan-Body depth xs rest u)
          ∙ prepend-append opening closing ts xs _)
      ∙ prepend-append opening closing (quote ∷ []) (ts ++ xs) _
  scan-Body depth _ rest (body_nest ys xs t u) =
      ap (λ zs. scan opening closing (suc depth) plain (opening ∷ zs))
        (append_assoc ys (closing ∷ xs) rest)
      ∙ scan-go opening closing (suc depth) (suc (suc depth)) plain plain opening
          (ys ++ closing ∷ (xs ++ rest))
          (scan_byte-opening opening closing (suc depth) b.opening_plain
            ∙ ap (λ d. go_on d plain) (omega arith))
      ∙ ap (prepend opening closing (opening ∷ [])) (
          scan-Body (suc depth) ys (closing ∷ (xs ++ rest)) t
          ∙ ap (prepend opening closing ys) (
              scan-go opening closing (suc (suc depth)) (suc depth) plain plain closing (xs ++ rest)
                (scan_byte-closing opening closing depth b.closing_plain b.differ)
              ∙ ap (prepend opening closing (closing ∷ [])) (scan-Body depth xs rest u)
              ∙ prepend-append opening closing (closing ∷ []) xs _)
          ∙ prepend-append opening closing ys (closing ∷ xs) _)
      ∙ prepend-append opening closing (opening ∷ []) (ys ++ closing ∷ xs) _

  from_first-Without :
      (before rest : List ℕ)
      → Without opening before
      → from_first opening closing (before ++ opening ∷ rest) ≡ some (opening ∷ rest)
  unfolding from_first
  from_first-Without [] rest h = rw (same_byte opening) refl
  from_first-Without (x ∷ before) rest h =
      rw (unequal x opening h.0) (from_first-Without before rest h.1)

  -- In a text whose first opening bracket starts a bracketed body (strings, with their escapes, and
  -- nested brackets included), the search finds exactly that body with its brackets, whatever
  -- follows: brackets inside strings do not count.
  pub find_first-Body :
      (before bs after : List ℕ)
      → Without opening before
      → Body opening closing bs
      → find_first opening closing (before ++ opening ∷ (bs ++ closing ∷ after))
        ≡ some (opening ∷ (bs ++ closing ∷ []))
  unfolding find_first
  find_first-Body before bs after h body =
      rw (from_first-Without before (bs ++ closing ∷ after) h) (
        scan-go opening closing 0 1 plain plain opening (bs ++ closing ∷ after)
          (scan_byte-opening opening closing 0 b.opening_plain)
        ∙ ap (prepend opening closing (opening ∷ [])) (
            scan-Body 0 bs (closing ∷ after) body
            ∙ ap (prepend opening closing bs)
                (scan-last opening closing after b.closing_plain b.differ)))

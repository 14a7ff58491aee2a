-- ===== src/Engine/Result/Found.antt =====
-- internal/engine/result.go: whatever the bracket scan finds is a bracketed body of the text.
use ao_eo.Base.{
  ℕ, zero, suc, ◌-◌, ◌≡◌, ◌≢◌, refl, ap, sym, ◌∙◌, inl, inr, true, false, List, [], ◌∷◌, ◌++◌,
  Option, none, some, ◌==◌, ==_iff, arith, Bool-cases,
}
use ao_eo.Engine.Result.{
  quote, backslash, Mode, plain, in_string, escaped, go_on, scan_byte, prepend, scan,
}
use ao_eo.Engine.Result.Brackets.{
  Text, text_end, text_byte, text_escape, Body, body_end, body_byte, body_text, body_nest,
  append_assoc, scan-go,
}

module _ (opening closing : ℕ) where
  -- What closes `depth + 1` brackets: bodies, each with the closing bracket behind it
  pub data Levels : ℕ → List ℕ → Type 0 where
    last_level : (bs : List ℕ) → Body opening closing bs → Levels 0 (bs ++ closing ∷ [])
    next_level :
        (depth : ℕ) (bs span : List ℕ)
        → Body opening closing bs
        → Levels depth span
        → Levels (suc depth) (bs ++ closing ∷ span)

  -- What the scan finds from a mode on
  pub data Closes (depth : ℕ) : Mode → List ℕ → Type 0 where
    from_plain : (span : List ℕ) → Levels depth span → Closes depth plain span
    from_string :
        (ts span : List ℕ) → Text ts → Levels depth span → Closes depth in_string (ts ++ span)
    from_escaped :
        (x : ℕ) (ts span : List ℕ)
        → Text ts
        → Levels depth span
        → Closes depth escaped (x ∷ (ts ++ span))

  Levels-byte :
      (depth x : ℕ) (span : List ℕ)
      → x ≢ quote
      → x ≢ opening
      → x ≢ closing
      → Levels depth span
      → Levels depth (x ∷ span)
  Levels-byte _ x _ p q r (last_level bs body) = last_level (x ∷ bs) (body_byte x bs p q r body)
  Levels-byte _ x _ p q r (next_level depth bs span body rest) =
      next_level depth (x ∷ bs) span (body_byte x bs p q r body) rest

  Levels-Text :
      (depth : ℕ) (ts span : List ℕ)
      → Text ts
      → Levels depth span
      → Levels depth (quote ∷ (ts ++ span))
  Levels-Text _ ts _ t (last_level bs body) =
      let same : (ts ++ bs) ++ closing ∷ [] ≡ ts ++ (bs ++ closing ∷ []) = append_assoc ts bs _ in
      rw (← same) (last_level (quote ∷ (ts ++ bs)) (body_text ts bs t body))
  Levels-Text _ ts _ t (next_level depth bs span body rest) =
      let same : (ts ++ bs) ++ closing ∷ span ≡ ts ++ (bs ++ closing ∷ span) =
        append_assoc ts bs _ in
      rw (← same) (next_level depth (quote ∷ (ts ++ bs)) span (body_text ts bs t body) rest)

  -- An opening bracket takes the innermost level into the body before it.
  Levels-nest :
      (depth : ℕ) (span : List ℕ) → Levels (suc depth) span → Levels depth (opening ∷ span)
  Levels-nest depth _ (next_level _ ys _ body (last_level bs more)) =
      let same : (ys ++ closing ∷ bs) ++ closing ∷ [] ≡ ys ++ closing ∷ (bs ++ closing ∷ []) =
        append_assoc ys (closing ∷ bs) _ in
      rw (← same) (last_level (opening ∷ (ys ++ closing ∷ bs)) (body_nest ys bs body more))
  Levels-nest _ _ (next_level _ ys _ body (next_level depth bs span more rest)) =
      let same : (ys ++ closing ∷ bs) ++ closing ∷ span ≡ ys ++ closing ∷ (bs ++ closing ∷ span) =
        append_assoc ys (closing ∷ bs) _ in
      rw (← same)
        (next_level depth (opening ∷ (ys ++ closing ∷ bs)) span (body_nest ys bs body more) rest)

  close_quote :
      (depth x : ℕ) (s : List ℕ) → x ≡ quote → Closes depth in_string s → Closes depth plain (x ∷ s)
  close_quote depth x _ e (from_string ts span t l) =
      rw e (from_plain _ (Levels-Text depth ts span t l))

  close_opening :
      (depth x : ℕ) (s : List ℕ)
      → x ≡ opening
      → Closes (suc depth) plain s
      → Closes depth plain (x ∷ s)
  close_opening depth x _ e (from_plain span l) = rw e (from_plain _ (Levels-nest depth span l))

  close_closing :
      (depth x : ℕ) (s : List ℕ)
      → x ≡ closing
      → Closes depth plain s
      → Closes (suc depth) plain (x ∷ s)
  close_closing depth x _ e (from_plain span l) =
      rw e (from_plain _ (next_level depth [] span body_end l))

  close_plain :
      (depth x : ℕ) (s : List ℕ)
      → x ≢ quote
      → x ≢ opening
      → x ≢ closing
      → Closes depth plain s
      → Closes depth plain (x ∷ s)
  close_plain depth x _ p q r (from_plain span l) = from_plain _ (Levels-byte depth x span p q r l)

  close_backslash :
      (depth x : ℕ) (s : List ℕ)
      → x ≡ backslash
      → Closes depth escaped s
      → Closes depth in_string (x ∷ s)
  close_backslash depth x _ e (from_escaped y ts span t l) =
      rw e (from_string (backslash ∷ y ∷ ts) span (text_escape y ts t) l)

  close_text_end :
      (depth x : ℕ) (s : List ℕ) → x ≡ quote → Closes depth plain s → Closes depth in_string (x ∷ s)
  close_text_end depth x _ e (from_plain span l) = rw e (from_string (quote ∷ []) span text_end l)

  close_text :
      (depth x : ℕ) (s : List ℕ)
      → x ≢ quote
      → x ≢ backslash
      → Closes depth in_string s
      → Closes depth in_string (x ∷ s)
  close_text depth x _ p q (from_string ts span t l) =
      from_string (x ∷ ts) span (text_byte x ts p q t) l

  close_escaped :
      (depth x : ℕ) (s : List ℕ) → Closes depth in_string s → Closes depth escaped (x ∷ s)
  close_escaped depth x _ (from_string ts span t l) = from_escaped x ts span t l

  pub prepend-eq-some :
      (x : ℕ) (o : Option (List ℕ)) (span : List ℕ)
      → prepend opening closing (x ∷ []) o ≡ some span
      → (s : List ℕ) × (o ≡ some s) × (span ≡ x ∷ s)
  prepend-eq-some x none span h = absurd (cc h)
  prepend-eq-some x (some s) span h = (s, refl, some-injective (sym h))
    where
      some-injective : some span ≡ some (x ∷ s) → span ≡ x ∷ s
      some-injective e = ap (λ o. elim o as (λ _. List ℕ) [ none ↦ [] | some ys ↦ ys ]) e

  -- A prefix of the text that closes what is open
  abbrev pub Finds : ℕ → Mode → List ℕ → List ℕ → Type 0
  Finds depth mode xs span = (after : List ℕ) × (xs ≡ span ++ after) × Closes depth mode span

  found-step :
      (depth depth' : ℕ) (mode mode' : Mode) (x : ℕ) (xs span : List ℕ)
      → scan_byte opening closing (suc depth) mode x ≡ go_on (suc depth') mode'
      → ((s : List ℕ) → Closes depth' mode' s → Closes depth mode (x ∷ s))
      → ((s : List ℕ)
          → scan opening closing (suc depth') mode' xs ≡ some s
          → Finds depth' mode' xs s)
      → scan opening closing (suc depth) mode (x ∷ xs) ≡ some span
      → Finds depth mode (x ∷ xs) span
  found-step depth depth' mode mode' x xs span e build found h =
      let (s, p, q) =
        prepend-eq-some x (scan opening closing (suc depth') mode' xs) span
          (sym (scan-go opening closing (suc depth) (suc depth') mode mode' x xs e) ∙ h) in
      let (after, r, c) = found s p in rw q (after, ap (◌∷◌ x) r, build s c)

  pub differs : (x y : ℕ) → (x == y) ≡ false → x ≢ y
  differs x y e h = absurd (cc (e, (==_iff x y).1 h))

  scan-closing :
      (x : ℕ) (xs : List ℕ)
      → (x == quote) ≡ false
      → (x == opening) ≡ false
      → (x == closing) ≡ true
      → scan opening closing 1 plain (x ∷ xs) ≡ some (x ∷ [])
  unfolding scan scan_byte
  scan-closing x xs p q r = rw (p, q, r) refl

  scan_byte-closing_deep :
      (depth x : ℕ)
      → (x == quote) ≡ false
      → (x == opening) ≡ false
      → (x == closing) ≡ true
      → scan_byte opening closing (suc (suc depth)) plain x ≡ go_on (suc depth) plain
  unfolding scan_byte
  scan_byte-closing_deep depth x p q r =
      let less : suc (suc depth) - 1 ≡ suc depth = omega arith in
      let more : (suc depth == 0) ≡ false = ground arith in rw (p, q, r, less, more) refl

  -- A closing bracket ends the scan, or a level of it.
  closing-Finds :
      (depth x : ℕ) (xs span : List ℕ)
      → (x == quote) ≡ false
      → (x == opening) ≡ false
      → (x == closing) ≡ true
      → ((d : ℕ) (s : List ℕ) → scan opening closing (suc d) plain xs ≡ some s → Finds d plain xs s)
      → scan opening closing (suc depth) plain (x ∷ xs) ≡ some span
      → Finds depth plain (x ∷ xs) span
  closing-Finds zero x xs span p q r found h =
      let here : some (x ∷ []) ≡ some span = sym (scan-closing x xs p q r) ∙ h in
      let span' : span ≡ x ∷ [] =
        sym (ap (λ o. elim o as (λ _. List ℕ) [ none ↦ [] | some ys ↦ ys ]) here) in
      let same : x ≡ closing = (==_iff x closing).0 r in
      rw (span', same) (xs, refl, from_plain _ (last_level [] body_end))
  closing-Finds (suc depth) x xs span p q r found h =
      found-step (suc depth) depth plain plain x xs span (scan_byte-closing_deep depth x p q r)
        (λ s. close_closing depth x s ((==_iff x closing).0 r)) (found depth) h

  plain-Finds :
      (depth x : ℕ) (xs span : List ℕ)
      → ((d : ℕ) (mode : Mode) (s : List ℕ)
          → scan opening closing (suc d) mode xs ≡ some s
          → Finds d mode xs s)
      → scan opening closing (suc depth) plain (x ∷ xs) ≡ some span
      → Finds depth plain (x ∷ xs) span
  unfolding scan_byte
  plain-Finds depth x xs span found h = elim (Bool-cases (x == quote)) [
    | inl e ↦
        found-step depth depth plain in_string x xs span (rw e refl)
          (λ s. close_quote depth x s ((==_iff x quote).0 e)) (found depth in_string) h
    | inr e ↦ elim (Bool-cases (x == opening)) [
      | inl f ↦
          found-step depth (suc depth) plain plain x xs span
            (rw (e, f) (ap (λ d. go_on d plain) (omega arith)))
            (λ s. close_opening depth x s ((==_iff x opening).0 f)) (found (suc depth) plain) h
      | inr f ↦ elim (Bool-cases (x == closing)) [
        | inl g ↦ closing-Finds depth x xs span e f g (λ d. found d plain) h
        | inr g ↦
            found-step depth depth plain plain x xs span (rw (e, f, g) refl)
              (λ s.
                close_plain depth x s (differs x quote e) (differs x opening f)
                  (differs x closing g))
              (found depth plain) h
      ]
    ]
  ]

  string-Finds :
      (depth x : ℕ) (xs span : List ℕ)
      → ((mode : Mode) (s : List ℕ)
          → scan opening closing (suc depth) mode xs ≡ some s
          → Finds depth mode xs s)
      → scan opening closing (suc depth) in_string (x ∷ xs) ≡ some span
      → Finds depth in_string (x ∷ xs) span
  unfolding scan_byte
  string-Finds depth x xs span found h = elim (Bool-cases (x == backslash)) [
    | inl e ↦
        found-step depth depth in_string escaped x xs span (rw e refl)
          (λ s. close_backslash depth x s ((==_iff x backslash).0 e)) (found escaped) h
    | inr e ↦ elim (Bool-cases (x == quote)) [
      | inl f ↦
          found-step depth depth in_string plain x xs span (rw (e, f) refl)
            (λ s. close_text_end depth x s ((==_iff x quote).0 f)) (found plain) h
      | inr f ↦
          found-step depth depth in_string in_string x xs span (rw (e, f) refl)
            (λ s. close_text depth x s (differs x quote f) (differs x backslash e))
            (found in_string) h
    ]
  ]

  pub scan-Finds :
      (xs : List ℕ) (depth : ℕ) (mode : Mode) (span : List ℕ)
      → scan opening closing (suc depth) mode xs ≡ some span
      → Finds depth mode xs span
  unfolding scan scan_byte
  scan-Finds [] depth mode span h = absurd (cc h)
  scan-Finds (x ∷ xs) depth plain span h = plain-Finds depth x xs span (scan-Finds xs) h
  scan-Finds (x ∷ xs) depth in_string span h = string-Finds depth x xs span (scan-Finds xs depth) h
  scan-Finds (x ∷ xs) depth escaped span h =
      found-step depth depth escaped in_string x xs span refl (close_escaped depth x)
        (scan-Finds xs depth in_string) h

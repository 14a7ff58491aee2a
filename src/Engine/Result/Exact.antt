-- ===== src/Engine/Result/Exact.antt =====
-- internal/engine/result.go: the search finds a span exactly when it is the first bracketed one.
use ao_eo.Base.{
  ℕ, ◌≡◌, ◌≢◌, refl, ap, sym, ◌∙◌, ◌↔◌, inl, inr, List, [], ◌∷◌, ◌++◌, none, some, ◌==◌, ==_iff,
  Bool-cases, Option-cases,
}
use ao_eo.Engine.Result.{plain, scan, from_first, find_first, quote}
use ao_eo.Engine.Result.Brackets.{
  Body, Brackets, Without, append_assoc, scan-go, scan_byte-opening, find_first-Body,
}
use ao_eo.Engine.Result.Found.{last_level, Closes, from_plain, prepend-eq-some, differs, scan-Finds}

module _ (opening closing : ℕ) where
  -- `span` is a bracketed body of the text, and no opening bracket is before it.
  pub record FirstSpan (content span : List ℕ) : Type 0 where
    pub before : List ℕ
    pub inner : List ℕ
    pub after : List ℕ
    pub none_before : Without opening before
    pub body : Body opening closing inner
    pub split : content ≡ before ++ opening ∷ (inner ++ closing ∷ after)
    pub bracketed : span ≡ opening ∷ (inner ++ closing ∷ [])

  from_first-split :
      (content tail : List ℕ)
      → from_first opening closing content ≡ some tail
      → (before : List ℕ) × (rest : List ℕ) × (content ≡ before ++ tail)
        × (tail ≡ opening ∷ rest)
        × Without opening before
  unfolding from_first
  from_first-split [] tail h = absurd (cc h)
  from_first-split (x ∷ xs) tail h = elim (Bool-cases (x == opening)) [
    | inl e ↦
        let same : x ≡ opening = (==_iff x opening).0 e in
        let whole : some (x ∷ xs) ≡ some tail = rw e at h in
        let tail' : tail ≡ x ∷ xs =
          sym (ap (λ o. elim o as (λ _. List ℕ) [ none ↦ [] | some ys ↦ ys ]) whole) in
        ([], xs, sym tail', tail' ∙ ap (λ y. y ∷ xs) same, tt)
    | inr e ↦
        let later : from_first opening closing xs ≡ some tail = rw e at h in
        let (before, rest, p, q, w) = from_first-split xs tail later in
        (x ∷ before, rest, ap (◌∷◌ x) p, q, (differs opening closing x opening e, w))
  ]

  innermost :
      (s : List ℕ)
      → Closes opening closing 0 plain s
      → (bs : List ℕ) × (s ≡ bs ++ closing ∷ []) × Body opening closing bs
  innermost _ (from_plain _ (last_level bs body)) = (bs, refl, body)

  find_first_sound :
      (content span : List ℕ)
      → opening ≢ quote
      → find_first opening closing content ≡ some span
      → FirstSpan content span
  unfolding find_first
  find_first_sound content span b h = elim (Option-cases (from_first opening closing content)) [
    | inl e ↦ absurd (cc (rw e at h))
    | inr (tail, e) ↦
        let (before, rest, p, q, w) = from_first-split content tail e in
        let scanned : scan opening closing 0 plain tail ≡ some span = rw e at h in
        let scanned' : scan opening closing 0 plain (opening ∷ rest) ≡ some span =
          rw q at scanned in
        let (s, r, t) =
          prepend-eq-some opening closing opening (scan opening closing 1 plain rest) span (
            sym (
              scan-go opening closing 0 1 plain plain opening rest
                (scan_byte-opening opening closing 0 b))
            ∙ scanned') in
        let (after, u, c) = scan-Finds opening closing rest 0 plain s r in
        let (bs, v, body) = innermost s c in
        record {
          before = before;
          inner = bs;
          after = after;
          none_before = w;
          body = body;
          split =
              p
              ∙ ap (λ ys. before ++ ys)
                  (q
                    ∙ ap (◌∷◌ opening)
                        (u ∙ ap (λ ys. ys ++ after) v ∙ append_assoc bs (closing ∷ []) after));
          bracketed = t ∙ ap (◌∷◌ opening) v;
        }
  ]

  -- For brackets that differ from each other and from the quote: the search gives a span exactly if
  -- the text has no opening bracket before it, and the span is an opening bracket, a body and a
  -- closing bracket, the body with brackets that match outside of its strings.
  pub find_first_exact :
      (content span : List ℕ)
      → Brackets opening closing
      → (find_first opening closing content ≡ some span) ↔ FirstSpan content span
  find_first_exact content span b = (
    find_first_sound content span b.opening_plain,
    λ v.
        rw (v.split, v.bracketed)
          (find_first-Body opening closing b v.before v.inner v.after v.none_before v.body),
  )

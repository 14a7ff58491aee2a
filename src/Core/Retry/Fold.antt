-- ===== src/Core/Retry/Fold.antt =====
-- core/retry.go: containsFold finds a pattern exactly where the text has it, in any case.
use ao_eo.Base.{
  ℕ, ◌≡◌, refl, ap, ◌↔◌, ◌⊎◌, inl, inr, Bool, true, false, ◌||◌, List, [], ◌∷◌, ◌++◌, map, some,
  arith, Bool-cases,
}
use ao_eo.Core.Retry.{
  to_lower, matches_here, contains_fold, matches_any, transient_patterns, ErrorView,
  is_retryable_error,
}

-- `sub` stands in `s` between `before` and `after`, up to the case of ASCII letters.
pub record Occurs (s sub : List ℕ) : Type 0 where
  pub before : List ℕ
  pub here : List ℕ
  pub after : List ℕ
  pub split : s ≡ before ++ (here ++ after)
  pub same : map to_lower here ≡ map to_lower sub

-- `sub` stands at the start of `s`.
abbrev Starts : List ℕ → List ℕ → Type 0
Starts s sub =
    (here : List ℕ) × (after : List ℕ) × (s ≡ here ++ after)
    × (map to_lower here ≡ map to_lower sub)

matches_here_sound : (s sub : List ℕ) → matches_here s sub ≡ true → Starts s sub
unfolding matches_here
matches_here_sound s [] h = ([], s, refl, refl)
matches_here_sound [] (d ∷ sub) h = cc
matches_here_sound (c ∷ s) (d ∷ sub) h =
    let first : to_lower c ≡ to_lower d = ground arith in
    let (here, after, e, m) = matches_here_sound s sub (ground arith) in
    (c ∷ here, after, ap (◌∷◌ c) e, cc (first, m))

matches_here_complete :
    (here after sub : List ℕ)
    → map to_lower here ≡ map to_lower sub
    → matches_here (here ++ after) sub ≡ true
unfolding matches_here
matches_here_complete here after [] h = refl
matches_here_complete [] after (d ∷ sub) h = cc
matches_here_complete (c ∷ here) after (d ∷ sub) h =
    let first : to_lower c ≡ to_lower d = cc in
    ground (arith, first, matches_here_complete here after sub (cc))

Occurs-cons : (c : ℕ) (s sub : List ℕ) → Occurs s sub → Occurs (c ∷ s) sub
Occurs-cons c s sub o = record {
  before = c ∷ o.before;
  here = o.here;
  after = o.after;
  split = ap (◌∷◌ c) o.split;
  same = o.same;
}

Occurs-of_Starts : (s sub : List ℕ) → Starts s sub → Occurs s sub
Occurs-of_Starts s sub (here, after, e, m) = record {
  before = [];
  here = here;
  after = after;
  split = e;
  same = m;
}

contains_fold_sound : (s sub : List ℕ) → contains_fold s sub ≡ true → Occurs s sub
unfolding contains_fold
contains_fold_sound [] sub h = Occurs-of_Starts [] sub (matches_here_sound [] sub h)
contains_fold_sound (c ∷ s) sub h = elim (Bool-cases (matches_here (c ∷ s) sub)) [
  | inl e ↦ Occurs-of_Starts (c ∷ s) sub (matches_here_sound (c ∷ s) sub e)
  | inr e ↦ Occurs-cons c s sub (contains_fold_sound s sub (rw e at h))
]

contains_fold_complete :
    (before here after sub : List ℕ)
    → map to_lower here ≡ map to_lower sub
    → contains_fold (before ++ (here ++ after)) sub ≡ true
unfolding contains_fold
contains_fold_complete [] here after sub m =
    at_start (here ++ after) (matches_here_complete here after sub m)
  where
    at_start : (s : List ℕ) → matches_here s sub ≡ true → contains_fold s sub ≡ true
    at_start [] e = e
    at_start (c ∷ s) e = rw e
contains_fold_complete (c ∷ before) here after sub m =
    ground (arith, contains_fold_complete before here after sub m)

-- containsFold holds exactly if the pattern occurs in the text up to the case of ASCII letters.
pub contains_fold_iff : (s sub : List ℕ) → (contains_fold s sub ≡ true) ↔ Occurs s sub
contains_fold_iff s sub = (
  contains_fold_sound s sub,
  λ o. rw o.split (contains_fold_complete o.before o.here o.after sub o.same),
)

-- Some pattern of the list occurs in the text.
abbrev pub OccursAny : List ℕ → List (List ℕ) → Type 0
OccursAny msg [] = ⊥
OccursAny msg (p ∷ ps) = Occurs msg p ⊎ OccursAny msg ps

matches_any_iff :
    (msg : List ℕ) (ps : List (List ℕ)) → (matches_any msg ps ≡ true) ↔ OccursAny msg ps
unfolding matches_any
matches_any_iff msg [] = (λ h. cc, λ h. absurd h)
matches_any_iff msg (p ∷ ps) = (
  λ h. (elim (Bool-cases (contains_fold msg p)) [
    | inl e ↦ inl ((contains_fold_iff msg p).0 e)
    | inr e ↦ inr ((matches_any_iff msg ps).0 (rw e at h))
  ]),
  λ h. (elim h [
    | inl o ↦ rw ((contains_fold_iff msg p).1 o)
    | inr o ↦ or_true (contains_fold msg p) ((matches_any_iff msg ps).1 o)
  ]),
)
  where
    or_true : (b : Bool) {c : Bool} → c ≡ true → (b || c) ≡ true
    or_true true e = refl
    or_true false e = e

-- An error is retryable exactly if it is a network timeout or its text has one of the transient
-- patterns, up to the case of ASCII letters.
pub is_retryable_error_iff :
    (e : ErrorView)
    → (is_retryable_error (some e) ≡ true)
      ↔ ((e.net_timeout ≡ true) ⊎ OccursAny e.message transient_patterns)
unfolding is_retryable_error
is_retryable_error_iff e = (
  λ h. (elim (Bool-cases e.net_timeout) [
    | inl t ↦ inl t
    | inr t ↦ inr ((matches_any_iff e.message transient_patterns).0 (rw t at h))
  ]),
  λ h. (elim h [
    | inl t ↦ rw t
    | inr o ↦ ground (arith, (matches_any_iff e.message transient_patterns).1 o)
  ]),
)

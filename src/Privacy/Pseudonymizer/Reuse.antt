-- ===== src/Privacy/Pseudonymizer/Reuse.antt =====
-- privacy/pseudonymizer.go: the mappings that PseudonymizeRequest returns are those that it made.
use mathlib.Core.List.{Mem, mem-cons, mem-append, not-mem-nil}
use mathlib.Core.Logic.Or
use mathlib.Core.HLevel.{¬_prop}
use ao_eo.Base.{
  ℕ, ◌≢◌, ap, ◌∙◌, sym, List, [], ◌∷◌, String, Option, some, none, Option-cases, inl, inr,
}
use ao_eo.Core.Types.{Request, PrivacyMapping}
use ao_eo.Privacy.Pseudonymizer.{
  Span, Vault, Replacing, lookup, sort_spans, concat, contents, fresh_fake, noted, store_fake,
  create, assign, assign_all, pseudonymize_spans, pseudonymize_request,
}
use ao_eo.Privacy.Pseudonymizer.Ensures.{Ensures, Ensures-and_then, Anything}

-- No mapping is for the value.
abbrev pub Lacks : String → List PrivacyMapping → Type 0
Lacks o ms = (m : PrivacyMapping) → Mem m ms → m.original ≢ o

module _ {W : Type 0} (v : Vault W) (session o : String)
    (known : (w : W) → v.get_fake session o w ≢ none) where
  abbrev Fine : Replacing W → Type 0
  Fine r = Lacks o r.mappings

  noted-Lacks :
      (e : Option String) (sp : Span) (f : String) (r : Replacing W) (w : W)
      → sp.original ≢ o
      → Fine r
      → Ensures Fine (noted v session e sp f r w)
  noted-Lacks (some e) sp f r w ne h = tt
  noted-Lacks none sp f r w ne h = λ m k.
      Or.elim ¬_prop ((mem-append {s = r.mappings}).0 k) (h m) (λ new.
        Or.elim ¬_prop (mem-cons.0 new)
          (λ is same. ne (ap (λ (x : PrivacyMapping). x.original) (sym is) ∙ same))
          (λ nowhere. absurd (not-mem-nil nowhere)))

  create-Lacks :
      (fuel : ℕ) (sp : Span) (r : Replacing W)
      → sp.original ≢ o
      → Fine r
      → Ensures Fine (create v session fuel sp r)
  unfolding create store_fake
  create-Lacks fuel sp r ne h =
      let drawn = v.generate sp.label sp.original r.world in
      let found = fresh_fake v session fuel sp.label sp.original drawn.0 drawn.1 in
      Ensures-and_then (λ (x : String × W). Unit {0}) Fine found
        (λ (x : String × W). store_fake v session sp x r) (Anything found)
        (λ (x : String × W) any.
          let stored = v.put session x.0 sp.original sp.label x.1 in
          noted-Lacks stored.0 sp x.0 r stored.1 ne h)

  assign-Lacks :
      (fuel : ℕ) (sp : Span) (r : Replacing W) → Fine r → Ensures Fine (assign v session fuel sp r)
  unfolding assign
  assign-Lacks fuel sp r h = elim (Option-cases (lookup sp.original r.replacements)) [
    | inr (f, e) ↦ rw (e, assign) h
    | inl e ↦ elim (Option-cases (v.get_fake session sp.original r.world)) [
      | inr (f, found) ↦ rw (e, found, assign) h
      | inl nothing ↦
          rw (e, nothing, assign)
            (create-Lacks fuel sp r (λ same. known r.world (rw (← same) nothing)) h)
    ]
  ]

  assign_all-Lacks :
      (fuel : ℕ) (spans : List Span) (r : Replacing W)
      → Fine r
      → Ensures Fine (assign_all v session fuel spans r)
  unfolding assign_all
  assign_all-Lacks fuel [] r h = h
  assign_all-Lacks fuel (x ∷ spans) r h =
      Ensures-and_then Fine Fine _ _ (assign-Lacks fuel x r h) (assign_all-Lacks fuel spans)

  abbrev pub SentLacks : Request × (List PrivacyMapping × W) → Type 0
  SentLacks sent = Lacks o sent.1.0

  spans-Lacks :
      (fuel : ℕ) (spans : List Span) (req : Request) (w : W)
      → Ensures SentLacks (pseudonymize_spans v session fuel spans req w)
  unfolding pseudonymize_spans
  spans-Lacks fuel [] req w = λ m k. absurd (not-mem-nil k)
  spans-Lacks fuel (x ∷ spans) req w =
      let start : Replacing W = record { replacements = []; mappings = []; world = w } in
      Ensures-and_then Fine SentLacks _ _
        (assign_all-Lacks fuel (sort_spans (x ∷ spans)) start (λ m k. absurd (not-mem-nil k)))
        (λ (r : Replacing W) h. h)

  -- A value that has a mapping in the session already is in none of the mappings returned.
  pub pseudonymize_request-Lacks :
      (fuel : ℕ) (req : Request) (w : W)
      → Ensures SentLacks (pseudonymize_request v session fuel req w)
  unfolding pseudonymize_request
  pseudonymize_request-Lacks fuel req w =
      spans-Lacks fuel (concat (v.detect_batch (contents req.messages) w).0) req _

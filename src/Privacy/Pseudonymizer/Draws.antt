-- ===== src/Privacy/Pseudonymizer/Draws.antt =====
-- privacy/pseudonymizer.go: the loop that draws a fake value until it is not in use, which has no
-- bound in the code.
use ao_eo.Base.{
  ℕ, zero, suc, ◌<◌, ◌≡◌, ◌≢◌, refl, ap, [], ◌∷◌, String, some, none, arith, Option-cases, inl, inr,
  size,
}
use ao_eo.Core.Types.{Request}
use ao_eo.Privacy.Generator.{generic_mask}
use ao_eo.Privacy.Pseudonymizer.{
  Span, Vault, passed, stuck, Replacing, lookup, contents, concat, sort_spans, fresh_fake, create,
  assign, assign_all, pseudonymize_spans, pseudonymize_request,
}

module _ {W : Type 0} (v : Vault W) (session label original : String) where
  -- What the loop holds after n more draws
  unfoldable pub drawn_after : ℕ → String × W → String × W
  drawn_after zero (fake, w) = (fake, w)
  drawn_after (suc n) (fake, w) = drawn_after n (v.generate label original w)

  abbrev pub Taken : String × W → Type 0
  Taken x = v.get_original session x.0 x.1 ≢ none

  -- The loop ends with the first drawn value that is not in use, given fuel for one round more than
  -- the draws before it.
  pub fresh_fake-first :
      (n fuel : ℕ) (x : String × W)
      → ((m : ℕ) → m < n → Taken (drawn_after m x))
      → v.get_original session (drawn_after n x).0 (drawn_after n x).1 ≡ none
      → n < fuel
      → fresh_fake v session fuel label original x.0 x.1 ≡ passed (drawn_after n x)
  unfolding fresh_fake drawn_after
  fresh_fake-first n zero x taken free lt = absurd (omega arith)
  fresh_fake-first zero (suc fuel) (fake, w) taken free lt = rw (free, fresh_fake)
  fresh_fake-first (suc n) (suc fuel) (fake, w) taken free lt =
      elim (Option-cases (v.get_original session fake w)) [
        | inl unused ↦ absurd (taken 0 (omega arith) unused)
        | inr (o, used) ↦
            rw (used, fresh_fake)
              (fresh_fake-first n fuel (v.generate label original w)
                (λ m k. taken (suc m) (omega arith)) free (omega arith))
      ]

-- Masks of equal length are equal.
generic_mask-eq : (s t : String) → size s ≡ size t → generic_mask s ≡ generic_mask t
unfolding generic_mask
generic_mask-eq String.[] String.[] e = refl
generic_mask-eq String.[] (String.◌∷◌ d t) e = absurd (omega arith)
generic_mask-eq (String.◌∷◌ c s) String.[] e = absurd (omega arith)
generic_mask-eq (String.◌∷◌ c s) (String.◌∷◌ d t) e =
    ap (String.◌∷◌ "*") (generic_mask-eq s t (omega arith))

module _ {W : Type 0} (v : Vault W) (session : String) (sp : Span) (masked : String)
    (same_length : size masked ≡ size sp.original)
    (masks : (w : W) → (v.generate sp.label sp.original w).0 ≡ generic_mask sp.original)
    (in_use : (w : W) → v.get_original session (generic_mask masked) w ≡ some masked)
    (unknown : (w : W) → v.get_fake session sp.original w ≡ none) where
  fresh_fake-stuck :
      (fuel : ℕ) (w : W)
      → fresh_fake v session fuel sp.label sp.original (generic_mask masked) w ≡ stuck
  unfolding fresh_fake
  fresh_fake-stuck zero w = refl
  fresh_fake-stuck (suc fuel) w =
      rw (in_use w, fresh_fake, masks w, ← generic_mask-eq masked sp.original same_length)
        (fresh_fake-stuck fuel _)

  create-stuck : (fuel : ℕ) (r : Replacing W) → create v session fuel sp r ≡ stuck
  unfolding create
  create-stuck fuel r = rw (
    masks r.world,
    ← generic_mask-eq masked sp.original same_length,
    fresh_fake-stuck fuel (v.generate sp.label sp.original r.world).1,
  )

  assign-stuck :
      (fuel : ℕ) (r : Replacing W)
      → lookup sp.original r.replacements ≡ none
      → assign v session fuel sp r ≡ stuck
  unfolding assign
  assign-stuck fuel r new = rw (new, unknown r.world, assign) (create-stuck fuel r)

  spans-stuck :
      (fuel : ℕ) (req : Request) (w : W) → pseudonymize_spans v session fuel (sp ∷ []) req w ≡ stuck
  unfolding pseudonymize_spans assign_all sort_spans lookup
  spans-stuck fuel req w =
      let start : Replacing W = record { replacements = []; mappings = []; world = w } in
      rw (assign-stuck fuel start (unfold lookup in refl))

  -- Where the generator masks a value by stars, and another value of its length has a mapping to
  -- those stars in the session, PseudonymizeRequest on a request with that value alone does not
  -- return, whatever the number of rounds: the loop draws the same stars for ever.
  pub pseudonymize_request-stuck :
      (fuel : ℕ) (req : Request) (w : W)
      → concat (v.detect_batch (contents req.messages) w).0 ≡ sp ∷ []
      → pseudonymize_request v session fuel req w ≡ stuck
  unfolding pseudonymize_request
  pseudonymize_request-stuck fuel req w alone = rw alone (spans-stuck fuel req _)

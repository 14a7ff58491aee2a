-- ===== src/Privacy/Store/Lookup.antt =====
-- privacy/store/pebble.go: what GetFake and GetOriginal find after Set.
use ao_eo.Base.{
  ℕ, ◌^◌, ◌<◌, ◌≡◌, ◌≢◌, refl, ap, ◌∙◌, sym, Bool, true, false, List, [], ◌∷◌, Option, none, some,
  arith, Bool-cases, inl, inr, Text, ◌&&◌, if◌then◌else◌,
}
use ao_eo.Privacy.Store.{
  encode_value, key_in, key_fake, key_orig, text_eq, last_set, Pebble, set_mapping, text_of,
  get_original, get_fake,
}
use ao_eo.Privacy.Store.Keys.{decode_value-encode_value, text_eq_iff, NoColon, key_in_inj}

text_eq-false : (s t : Text) → s ≢ t → text_eq s t ≡ false
text_eq-false s t ne = elim (Bool-cases (text_eq s t)) [
  | inl e ↦ absurd (ne ((text_eq_iff s t).0 e))
  | inr e ↦ e
]

text_eq_refl : (s : Text) → text_eq s s ≡ true
text_eq_refl s = (text_eq_iff s s).1 refl

-- The two directions never share a key.
orig_ne_fake :
    (s s' x y : Text) → NoColon s → NoColon s' → text_eq (key_orig s x) (key_fake s' y) ≡ false
unfolding key_orig key_fake
orig_ne_fake s s' x y h h' =
    text_eq-false (key_orig s x) (key_fake s' y)
      (λ e. absurd (omega (arith, (key_in_inj b'o' b'f' s s' x y h h' e).0)))

fake_ne_orig :
    (s s' x y : Text) → NoColon s → NoColon s' → text_eq (key_fake s x) (key_orig s' y) ≡ false
unfolding key_orig key_fake
fake_ne_orig s s' x y h h' =
    text_eq-false (key_fake s x) (key_orig s' y)
      (λ e. absurd (omega (arith, (key_in_inj b'f' b'o' s s' x y h h' e).0)))

-- Within a direction, keys are equal as sessions and texts are.
same_key :
    (dir : ℕ) (s s' x y : Text)
    → NoColon s
    → NoColon s'
    → text_eq (key_in dir s x) (key_in dir s' y) ≡ (text_eq s s' && text_eq x y)
same_key dir s s' x y h h' = elim (Bool-cases (text_eq s s' && text_eq x y)) [
  | inl e ↦
      let both = both_true (text_eq s s') (text_eq x y) e in
      let equal : key_in dir s x ≡ key_in dir s' y =
        ap (λ t. key_in dir t x) ((text_eq_iff s s').0 both.0)
        ∙ ap (key_in dir s') ((text_eq_iff x y).0 both.1) in
      (text_eq_iff _ _).1 equal ∙ sym e
  | inr e ↦
      text_eq-false _ _ (λ k.
        let parts = key_in_inj dir dir s s' x y h h' k in
        let a : text_eq s s' ≡ true = (text_eq_iff s s').1 parts.1 in
        let b : text_eq x y ≡ true = (text_eq_iff x y).1 parts.2 in absurd (clash a b e))
      ∙ sym e
]
  where
    both_true : (a b : Bool) → (a && b) ≡ true → (a ≡ true) × (b ≡ true)
    both_true a b h = ground arith

    clash : {a b : Bool} → a ≡ true → b ≡ true → (a && b) ≡ false → ⊥
    clash p q r = ground arith

same_fake :
    (s s' x y : Text)
    → NoColon s
    → NoColon s'
    → text_eq (key_fake s x) (key_fake s' y) ≡ (text_eq s s' && text_eq x y)
unfolding key_fake
same_fake = same_key b'f'

same_orig :
    (s s' x y : Text)
    → NoColon s
    → NoColon s'
    → text_eq (key_orig s x) (key_orig s' y) ≡ (text_eq s s' && text_eq x y)
unfolding key_orig
same_orig = same_key b'o'

last_set-pair :
    (k1 k2 v1 v2 k : Text)
    → last_set ((k1, v1) ∷ (k2, v2) ∷ []) k
      ≡ (if text_eq k2 k then some v2 else if text_eq k1 k then some v1 else none)
unfolding last_set
last_set-pair k1 k2 v1 v2 k = elim (Bool-cases (text_eq k2 k)) [
  | inl e ↦ rw (e, last_set)
  | inr e ↦ rw (e, last_set)
]

module _ {D : Type 0} (db : Pebble D) where
  -- A key after a batch of two sets
  get-pair :
      (k1 k2 v1 v2 k : Text) (d : D)
      → db.get (db.apply_batch ((k1, v1) ∷ (k2, v2) ∷ []) d) k
        ≡ (if text_eq k2 k then some v2 else if text_eq k1 k then some v1 else db.get d k)
  get-pair k1 k2 v1 v2 k d = elim (Bool-cases (text_eq k2 k)) [
    | inl e ↦ rw e (db.get-set batch d k (last_set-pair k1 k2 v1 v2 k ∙ rw e))
    | inr e ↦ elim (Bool-cases (text_eq k1 k)) [
      | inl f ↦ rw (e, f) (db.get-set batch d k (last_set-pair k1 k2 v1 v2 k ∙ rw (e, f)))
      | inr f ↦ rw (e, f) (db.get-unset batch d k (last_set-pair k1 k2 v1 v2 k ∙ rw (e, f)))
    ]
  ]
    where
      batch : List (Text × Text)
      batch = (k1, v1) ∷ (k2, v2) ∷ []

  text_of-encoded : (t : ℕ) (v : Text) → t < 2 ^ 64 → text_of db (some (encode_value t v)) ≡ some v
  text_of-encoded t v h = rw (decode_value-encode_value t v h)

  found_if :
      (b : Bool) (t : ℕ) (v : Text) (o : Option Text)
      → t < 2 ^ 64
      → text_of db (if b then some (encode_value t v) else o) ≡ (if b then some v else text_of db o)
  found_if true t v o h = text_of-encoded t v h
  found_if false t v o h = refl

  -- After Set, GetOriginal and GetFake find what was set, in the session and under the text that it
  -- was set for, and what they found before everywhere else. No session has a colon in its name, and
  -- the clock is below 2 ^ 64 nanoseconds.
  pub set_mapping-found :
      (session session' fake original x : Text) (now : ℕ) (d : D)
      → NoColon session
      → NoColon session'
      → now < 2 ^ 64
      → (get_original db session' x (set_mapping db session fake original now d) ≡ (
          if text_eq session session' && text_eq fake x
          then some original
          else get_original db session' x d))
        × (get_fake db session' x (set_mapping db session fake original now d) ≡ (
            if text_eq session session' && text_eq original x
            then some fake
            else get_fake db session' x d))
  unfolding set_mapping get_original get_fake
  set_mapping-found session session' fake original x now d plain plain' in_time = (
    ap (text_of db) (
          get-pair _ _ _ _ (key_fake session' x) d
          ∙ rw (
            orig_ne_fake session session' original x plain plain',
            same_fake session session' fake x plain plain',
          ))
        ∙ found_if (text_eq session session' && text_eq fake x) now original _ in_time,
    ap (text_of db) (
          get-pair _ _ _ _ (key_orig session' x) d
          ∙ rw (
            fake_ne_orig session session' fake x plain plain',
            same_orig session session' original x plain plain',
          ))
        ∙ found_if (text_eq session session' && text_eq original x) now fake _ in_time,
  )

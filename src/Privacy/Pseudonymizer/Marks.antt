-- ===== src/Privacy/Pseudonymizer/Marks.antt =====
-- privacy/pseudonymizer.go: replaceFake, on texts where a fake value is known by its first character.
use Prim.Native.Char.{Char}
use ao_eo.Base.{
  zero, suc, ◌-◌, ◌≡◌, refl, ap, true, false, ◌||◌, List, [], ◌∷◌, String, arith, Bool-cases, inl,
  inr, has, is_prefix, append, size, replace_all, replace_from,
}
use ao_eo.Privacy.Pseudonymizer.Restoring.{replace_before, replace_behind}

pub has-append : (d : Char) (s t : String) → has d (append s t) ≡ (has d s || has d t)
unfolding has
has-append d String.[] t = refl
has-append d (String.◌∷◌ c s) t = ground (arith, has-append d s t)

has_of_prefix : (m : Char) (p s : String) → is_prefix p s ≡ true → has m p ≡ true → has m s ≡ true
unfolding is_prefix has
has_of_prefix m String.[] s h k = cc
has_of_prefix m (String.◌∷◌ d p) String.[] h k = cc
has_of_prefix m (String.◌∷◌ d p) (String.◌∷◌ c s) h k = ground (arith, has_of_prefix m p s)

has_tail : (m c : Char) (s : String) → has m (String.◌∷◌ c s) ≡ false → has m s ≡ false
unfolding has
has_tail m c s h = ground arith

-- A pattern with a character that the text lacks has nothing to replace.
replace_from-absent :
    (m : Char) (old new s : String)
    → has m old ≡ true
    → has m s ≡ false
    → replace_from old new zero s ≡ s
unfolding replace_from
replace_from-absent m old new String.[] h k = refl
replace_from-absent m old new (String.◌∷◌ c s) h k =
    elim (Bool-cases (is_prefix old (String.◌∷◌ c s))) [
      | inl hit ↦ (let bad = has_of_prefix m old (String.◌∷◌ c s) hit h in cc)
      | inr miss ↦
          rw (miss, replace_from)
            (ap (String.◌∷◌ c) (replace_from-absent m old new s h (has_tail m c s k)))
    ]

replace_all-absent :
    (m : Char) (old new s : String) → has m old ≡ true → has m s ≡ false → replace_all old new s ≡ s
unfolding replace_all
replace_all-absent m String.[] new s h k = (let bad : false ≡ true = unfold has in h in cc)
replace_all-absent m (String.◌∷◌ c old) new s h k =
    replace_from-absent m (String.◌∷◌ c old) new s h k

pub replace_before-absent :
    (m : Char) (ps : List String) (fake original s : String)
    → has m fake ≡ true
    → has m s ≡ false
    → replace_before ps fake original s ≡ s
unfolding replace_before
replace_before-absent m [] fake original s h k = refl
replace_before-absent m (p ∷ ps) fake original s h k =
    let there : has m (append fake p) ≡ true = ground (arith, has-append m fake p) in
    rw (replace_all-absent m (append fake p) (append original p) s there k)
      (replace_before-absent m ps fake original s h k)

pub replace_behind-absent :
    (m : Char) (ps : List String) (fake original s : String)
    → has m fake ≡ true
    → has m s ≡ false
    → replace_behind ps fake original s ≡ s
unfolding replace_behind
replace_behind-absent m [] fake original s h k = refl
replace_behind-absent m (p ∷ ps) fake original s h k =
    let there : has m (append p fake) ≡ true = ground (arith, has-append m p fake) in
    rw (replace_all-absent m (append p fake) (append p original) s there k)
      (replace_behind-absent m ps fake original s h k)

module _ (m : Char) (f original : String) where
  abbrev pub fake : String
  fake = String.◌∷◌ m f

  pub replace_from-past_text :
      (s t : String)
      → has m s ≡ false
      → replace_from fake original zero (append s t) ≡ append s (replace_from fake original zero t)
  unfolding replace_from is_prefix has
  replace_from-past_text String.[] t h = refl
  replace_from-past_text (String.◌∷◌ c s) t h = ground (arith, replace_from-past_text s t)

  replace_from-skipped :
      (s t : String)
      → replace_from fake original (size s) (append s t) ≡ replace_from fake original zero t
  unfolding replace_from
  replace_from-skipped String.[] t = refl
  replace_from-skipped (String.◌∷◌ c s) t = replace_from-skipped s t

  is_prefix-append : (s t : String) → is_prefix s (append s t) ≡ true
  unfolding is_prefix
  is_prefix-append String.[] t = refl
  is_prefix-append (String.◌∷◌ c s) t = ground (arith, is_prefix-append s t)

  pub replace_from-fake :
      (t : String)
      → replace_from fake original zero (append fake t)
        ≡ append original (replace_from fake original zero t)
  unfolding replace_from
  replace_from-fake t =
      rw (is_prefix-append fake t, replace_from)
        (ap (append original) (
          let one_less : suc (size f) - 1 ≡ size f = omega arith in
          rw one_less (replace_from-skipped f t)))

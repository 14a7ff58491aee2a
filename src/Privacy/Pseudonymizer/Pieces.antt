-- ===== src/Privacy/Pseudonymizer/Pieces.antt =====
-- privacy/pseudonymizer.go: a response as pieces of text and fake values, and replaceFake on it.
use Prim.Native.Char.{Char}
use ao_eo.Base.{
  zero, ◌≡◌, refl, ap, ◌∙◌, Bool, true, false, List, [], ◌∷◌, String, arith, Bool-cases, inl, inr,
  ◌⊎◌, str_eq, eq_iff, has, append, replace_all, replace_from,
}
use ao_eo.Privacy.Pseudonymizer.{Entry}
use ao_eo.Privacy.Pseudonymizer.Restoring.{replace_fake, closing_marks, opening_marks}
use ao_eo.Privacy.Pseudonymizer.Marks.{
  has-append, replace_before-absent, replace_behind-absent, replace_from-past_text,
  replace_from-fake,
}

-- A response as the model writes it: text of its own, and fake values with the values they stand for
pub data Piece : Type 0 where
  plain : String → Piece
  fake_of : Entry → Piece

abbrev pub text_of : Piece → String
text_of (plain s) = s
text_of (fake_of e) = e.fake

abbrev pub meaning_of : Piece → String
meaning_of (plain s) = s
meaning_of (fake_of e) = e.original

-- What the model writes, and what the user is to read
unfoldable pub written : List Piece → String
written [] = ""
written (p ∷ ps) = append (text_of p) (written ps)

unfoldable pub meant : List Piece → String
meant [] = ""
meant (p ∷ ps) = append (meaning_of p) (meant ps)

-- The character `m` that the fake value begins with stands neither in a piece of text, nor in another
-- fake value, nor in a value that is to be restored; equal fake values stand for equal values.
abbrev pub Suits : Char → String → String → Piece → Type 0
Suits m fake original (plain s) = has m s ≡ false
Suits m fake original (fake_of e) =
    (((e.fake ≡ fake) × (e.original ≡ original)) ⊎ (has m e.fake ≡ false))
    × (has m e.original ≡ false)

abbrev pub Marked : String → String → List Piece → Type 0
Marked String.[] original ps = ⊥
Marked (String.◌∷◌ m f) original [] = Unit {0}
Marked (String.◌∷◌ m f) original (p ∷ ps) =
    Suits m (String.◌∷◌ m f) original p × Marked (String.◌∷◌ m f) original ps

abbrev pub settled : Bool → Entry → Piece
settled true e = plain e.original
settled false e = fake_of e

-- A piece after one fake value is turned back
abbrev pub turned : String → Piece → Piece
turned fake (plain s) = plain s
turned fake (fake_of e) = settled (str_eq e.fake fake) e

unfoldable pub turn_back : String → List Piece → List Piece
turn_back fake [] = []
turn_back fake (p ∷ ps) = turned fake p ∷ turn_back fake ps

marked_true : (m : Char) (f : String) → has m (String.◌∷◌ m f) ≡ true
unfolding has
marked_true m f = ground arith

marked_absurd : (m : Char) (f : String) → has m (String.◌∷◌ m f) ≡ false → ⊥
marked_absurd m f h = (let there = marked_true m f in cc)

nil-Marked : (original : String) (ps : List Piece) → Marked String.[] original ps → ⊥
nil-Marked original ps h = h

module _ (m : Char) (f original : String) where
  abbrev from : String
  from = String.◌∷◌ m f

  record Turns (p : Piece) : Type 0 where
    replaces :
        (t : String)
        → replace_from from original zero (append (text_of p) t)
          ≡ append (text_of (turned from p)) (replace_from from original zero t)
    absent : has m (text_of (turned from p)) ≡ false
    keeps : meaning_of (turned from p) ≡ meaning_of p

  from_eq : str_eq from from ≡ true
  from_eq = (eq_iff from from).1 refl

  other_fake : (e : Entry) → has m e.fake ≡ false → str_eq e.fake from ≡ false
  other_fake e h = elim (Bool-cases (str_eq e.fake from)) [
    | inr ne ↦ ne
    | inl same ↦
        (let bad : has m from ≡ false = rw ((eq_iff e.fake from).0 same) at h in
          absurd (marked_absurd m f bad))
  ]

  turned-Turns : (p : Piece) → Suits m from original p → Turns p
  turned-Turns (plain s) h = record {
    replaces = λ t. replace_from-past_text m f original s t h;
    absent = h;
    keeps = refl;
  }
  turned-Turns (fake_of e) (inl (same, same_original), absent) =
      let hit : str_eq e.fake from ≡ true = rw same from_eq in
      record {
        replaces = λ t. rw (hit, same, same_original) (replace_from-fake m f original t);
        absent = rw hit absent;
        keeps = rw hit;
      }
  turned-Turns (fake_of e) (inr differs, absent) =
      let miss = other_fake e differs in
      record {
        replaces = λ t. rw miss (replace_from-past_text m f original e.fake t differs);
        absent = rw miss differs;
        keeps = rw miss;
      }

  replace_from-written :
      (ps : List Piece)
      → Marked from original ps
      → replace_from from original zero (written ps) ≡ written (turn_back from ps)
  unfolding written turn_back replace_from
  replace_from-written [] h = refl
  replace_from-written (p ∷ ps) h =
      (turned-Turns p h.0).replaces (written ps)
      ∙ ap (append (text_of (turned from p))) (replace_from-written ps h.1)

  has-written :
      (ps : List Piece) → Marked from original ps → has m (written (turn_back from ps)) ≡ false
  unfolding written turn_back has
  has-written [] h = refl
  has-written (p ∷ ps) h =
      let t = turned-Turns p h.0 in
      ground (
        arith,
        t.absent,
        has-append m (text_of (turned from p)) (written (turn_back from ps)),
        has-written ps h.1,
      )

  pub meant-turn_back :
      (ps : List Piece) → Marked from original ps → meant (turn_back from ps) ≡ meant ps
  unfolding meant turn_back
  meant-turn_back [] h = refl
  meant-turn_back (p ∷ ps) h = let t = turned-Turns p h.0 in rw (t.keeps, meant-turn_back ps h.1)

pub replace_fake-written :
    (fake original : String) (ps : List Piece)
    → Marked fake original ps
    → replace_fake (written ps) fake original ≡ written (turn_back fake ps)
unfolding replace_fake replace_all
replace_fake-written String.[] original ps h = absurd (nil-Marked original ps h)
replace_fake-written (String.◌∷◌ m f) original ps h =
    let clean = has-written m f original ps h in
    let there = marked_true m f in
    rw
      (
        replace_from-written m f original ps h,
        replace_before-absent m closing_marks (String.◌∷◌ m f) original _ there clean,
      )
      (replace_behind-absent m opening_marks (String.◌∷◌ m f) original _ there clean)

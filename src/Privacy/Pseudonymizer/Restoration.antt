-- ===== src/Privacy/Pseudonymizer/Restoration.antt =====
-- privacy/pseudonymizer.go: RestoreResponse and RestoreResponseWithMappings give the user what the
-- response means.
use mathlib.Core.List.{Mem, mem-cons, not-mem-nil, Mem-prop}
use mathlib.Core.List.Perm
use mathlib.Core.Logic.Or
use ao_eo.Base.{
  ◌≡◌, refl, ap, ◌∙◌, sym, true, false, List, [], ◌∷◌, String, some, none, Bool-cases, inl, inr,
  str_eq, eq_iff, append, exchange_sort-perm,
}
use ao_eo.Core.Types.{Response, Choice, PrivacyMapping, content_of}
use ao_eo.Privacy.Pseudonymizer.{Entry, Vault}
use ao_eo.Privacy.Pseudonymizer.Restoring.{
  restore_text, sort_entries, shorter_fake, restore_choices, restore_with_entries, entries_of,
  restore_with_mappings, restore_response, with_session,
}
use ao_eo.Privacy.Pseudonymizer.Pieces.{
  Piece, plain, fake_of, written, meant, Marked, turn_back, meant-turn_back, replace_fake-written,
}

-- Every fake value is among the entries.
abbrev pub AllIn : List Entry → List Piece → Type 0
AllIn es [] = Unit {0}
AllIn es (plain s ∷ ps) = AllIn es ps
AllIn es (fake_of e ∷ ps) = Mem e es × AllIn es ps

-- Every entry is known by the first character of its fake value.
abbrev pub AllMarked : List Entry → List Piece → Type 0
AllMarked es ps = (e : Entry) → Mem e es → Marked e.fake e.original ps

Marked-turn_back :
    (fake original f : String) (ps : List Piece)
    → Marked fake original ps
    → Marked fake original (turn_back f ps)
unfolding turn_back
Marked-turn_back String.[] original f ps h = absurd h
Marked-turn_back (String.◌∷◌ m t) original f [] h = tt
Marked-turn_back (String.◌∷◌ m t) original f (plain s ∷ ps) h =
    (h.0, Marked-turn_back (String.◌∷◌ m t) original f ps h.1)
Marked-turn_back (String.◌∷◌ m t) original f (fake_of e ∷ ps) h =
    let rest = Marked-turn_back (String.◌∷◌ m t) original f ps h.1 in
    elim (Bool-cases (str_eq e.fake f)) [
      | inl hit ↦ rw hit (h.0.1, rest)
      | inr miss ↦ rw miss (h.0, rest)
    ]

later_entry :
    (x e : Entry) (es : List Entry) → str_eq x.fake e.fake ≡ false → Mem x (e ∷ es) → Mem x es
later_entry x e es differs m =
    Or.elim Mem-prop (mem-cons.0 m)
      (λ (same : x ≡ e).
        let hit : str_eq x.fake e.fake ≡ true = (eq_iff x.fake e.fake).1 (rw same) in
        absurd (clash hit))
      (λ (k : Mem x es). k)
  where
    clash : str_eq x.fake e.fake ≡ true → ⊥
    clash hit = cc

AllIn-turn_back :
    (e : Entry) (es : List Entry) (ps : List Piece)
    → AllIn (e ∷ es) ps
    → AllIn es (turn_back e.fake ps)
unfolding turn_back
AllIn-turn_back e es [] h = tt
AllIn-turn_back e es (plain s ∷ ps) h = AllIn-turn_back e es ps h
AllIn-turn_back e es (fake_of x ∷ ps) h =
    let rest = AllIn-turn_back e es ps h.1 in
    elim (Bool-cases (str_eq x.fake e.fake)) [
      | inl hit ↦ rw hit rest
      | inr miss ↦ rw miss (later_entry x e es miss h.0, rest)
    ]

written-eq-meant : (ps : List Piece) → AllIn [] ps → written ps ≡ meant ps
unfolding written meant
written-eq-meant [] h = refl
written-eq-meant (plain s ∷ ps) h = ap (append s) (written-eq-meant ps h)
written-eq-meant (fake_of e ∷ ps) h = absurd (not-mem-nil h.0)

meant-turn_back_entry :
    (fake original : String) (ps : List Piece)
    → Marked fake original ps
    → meant (turn_back fake ps) ≡ meant ps
meant-turn_back_entry String.[] original ps h = absurd h
meant-turn_back_entry (String.◌∷◌ m f) original ps h = meant-turn_back m f original ps h

restore_text-written :
    (es : List Entry) (ps : List Piece)
    → AllMarked es ps
    → AllIn es ps
    → restore_text es (written ps) ≡ meant ps
unfolding restore_text
restore_text-written [] ps marked known = written-eq-meant ps known
restore_text-written (e ∷ es) ps marked known =
    let own = marked e (mem-cons.1 (Or.inl refl)) in
    rw (replace_fake-written e.fake e.original ps own) (
      restore_text-written es (turn_back e.fake ps)
        (λ x m. Marked-turn_back x.fake x.original e.fake ps (marked x (mem-cons.1 (Or.inr m))))
        (AllIn-turn_back e es ps known)
      ∙ meant-turn_back_entry e.fake e.original ps own)

AllIn-mono :
    (es fs : List Entry) (ps : List Piece)
    → ((e : Entry) → Mem e es → Mem e fs)
    → AllIn es ps
    → AllIn fs ps
AllIn-mono es fs [] within h = tt
AllIn-mono es fs (plain s ∷ ps) within h = AllIn-mono es fs ps within h
AllIn-mono es fs (fake_of e ∷ ps) within h = (within e h.0, AllIn-mono es fs ps within h.1)

-- The first choice of a response says what the pieces spell.
abbrev pub Says : Response → String → Type 0
Says resp s = (c : Choice) × (cs : List Choice) × (resp.choices ≡ c ∷ cs) × (c.message.content ≡ s)

restore_with_entries-written :
    (es : List Entry) (resp : Response) (ps : List Piece)
    → AllMarked es ps
    → AllIn es ps
    → Says resp (written ps)
    → content_of (some (restore_with_entries es resp)) ≡ meant ps
unfolding restore_with_entries restore_choices content_of sort_entries
restore_with_entries-written [] resp ps marked known (c, cs, has_choice, spells) =
    rw (has_choice, spells) (written-eq-meant ps known)
restore_with_entries-written (e ∷ es) resp ps marked known (c, cs, has_choice, spells) =
    let sorted = sort_entries (e ∷ es) in
    let same = λ (y : Entry). Perm.mem_iff {a = y} (exchange_sort-perm shorter_fake (e ∷ es)) in
    rw (has_choice, spells)
      (restore_text-written sorted ps (λ x m. marked x ((same x).0 m))
        (AllIn-mono (e ∷ es) sorted ps (λ x m. (same x).1 m) known))

-- A response whose first choice is made of plain text and of fake values, in any order and number,
-- comes back from RestoreResponseWithMappings and from RestoreResponse with each fake value turned
-- into the value that it stands for, and the other text of that choice unchanged. The fake values are
-- among the mappings given and among those of the session, and it is assumed that the first
-- character of each of these stands nowhere else in the response, nor in a value to be restored.
pub restore-Meant :
    {W : Type 0} (v : Vault W) (session : String) (w : W) (es : List Entry)
    (ms : List PrivacyMapping) (resp : Response) (ps : List Piece)
    → Says resp (written ps)
    → AllMarked (entries_of ms) ps
    → AllIn (entries_of ms) ps
    → v.get_session session w ≡ (none, es)
    → AllMarked es ps
    → AllIn es ps
    → (content_of (restore_with_mappings (some resp) ms) ≡ meant ps)
      × (content_of (restore_response v session (some resp) w).1 ≡ meant ps)
unfolding restore_with_mappings restore_response
restore-Meant v session w es ms resp ps spells marked known loaded marked' known' = (
  restore_with_entries-written (entries_of ms) resp ps marked known spells,
  rw (loaded, with_session) (restore_with_entries-written es resp ps marked' known' spells),
)

append-nil : (s : String) → append s "" ≡ s
append-nil String.[] = refl
append-nil (String.◌∷◌ c s) = ap (String.◌∷◌ c) (append-nil s)

-- A response without any fake value of the mappings comes back as it was.
pub restore_with_mappings-plain :
    (ms : List PrivacyMapping) (resp : Response) (text : String)
    → AllMarked (entries_of ms) (plain text ∷ [])
    → Says resp text
    → content_of (restore_with_mappings (some resp) ms) ≡ text
unfolding restore_with_mappings written meant
restore_with_mappings-plain ms resp text marked (c, cs, has_choice, spells) =
    restore_with_entries-written (entries_of ms) resp (plain text ∷ []) marked tt
      (c, cs, has_choice, spells ∙ sym (append-nil text))
    ∙ append-nil text

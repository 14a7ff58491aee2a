-- ===== src/Engine/Prompt/Alike.antt =====
-- internal/engine/prompt.go: messages before and after an injection.
use ao_eo.Base.{
  ◌≡◌, ◌≢◌, refl, ◌∙◌, sym, inl, inr, String, List, [], ◌∷◌, Option, none, some, Bool-cases, str_eq,
  differs, append, if◌then◌else◌,
}
use ao_eo.Core.Types.{Message}
use ao_eo.Core.Types.Validity.{MessageOk, MessagesOk, NoSystem, Conversation}
use ao_eo.Engine.Prompt.{before, behind, prepend_first, append_last}

-- The role is the same, and content does not get lost.
pub record Alike (m m' : Message) : Type 0 where
  pub role : m'.role ≡ m.role
  pub content : m.content ≢ "" → m'.content ≢ ""

abbrev pub AllAlike : List Message → List Message → Type 0
AllAlike [] [] = Unit {0}
AllAlike [] (x ∷ xs) = ⊥
AllAlike (x ∷ xs) [] = ⊥
AllAlike (m ∷ ms) (m' ∷ ms') = Alike m m' × AllAlike ms ms'

pub Alike-refl : (m : Message) → Alike m m
Alike-refl m = record { role = refl; content = λ h. h }

pub AllAlike-refl : (ms : List Message) → AllAlike ms ms
AllAlike-refl [] = tt
AllAlike-refl (m ∷ ms) = (Alike-refl m, AllAlike-refl ms)

pub append-empty : (s t : String) → append s t ≡ "" → (s ≡ "") × (t ≡ "")
append-empty String.[] t h = (refl, h)
append-empty (String.◌∷◌ c s) t h = absurd (cons-empty h)
  where
    cons-empty : String.◌∷◌ c (append s t) ≡ "" → ⊥
    cons-empty e = cc

pub before-Alike : (content : String) (m : Message) → Alike m (before content m)
before-Alike content m = record {
  role = refl;
  content = λ h e. h (append-empty "\n\n" m.content (append-empty content _ e).1).1;
}

pub behind-Alike : (content : String) (m : Message) → Alike m (behind content m)
behind-Alike content m = record { role = refl; content = λ h e. h (append-empty m.content _ e).0 }

abbrev pub LacksRole : String → List Message → Type 0
LacksRole role [] = Unit {0}
LacksRole role (m ∷ ms) = (m.role ≢ role) × LacksRole role ms

-- Either no message has the role, or the messages are alike.
abbrev pub Outcome : String → List Message → Option (List Message) → Type 0
Outcome role ms none = LacksRole role ms
Outcome role ms (some ms') = AllAlike ms ms'

-- A message without the role in front of an outcome
pub cons-Outcome :
    (role : String) (m : Message) (ms : List Message) (o : Option (List Message))
    → m.role ≢ role
    → Outcome role ms o
    → Outcome role (m ∷ ms) (elim o [ none ↦ none | some ms' ↦ some (m ∷ ms') ])
cons-Outcome role m ms none ne h = (ne, h)
cons-Outcome role m ms (some ms') ne h = (Alike-refl m, h)

pub prepend_first-Outcome :
    (role content : String) (ms : List Message) → Outcome role ms (prepend_first role content ms)
unfolding prepend_first
prepend_first-Outcome role content [] = tt
prepend_first-Outcome role content (m ∷ ms) = elim (Bool-cases (str_eq m.role role)) [
  | inl hit ↦ rw hit (before-Alike content m, AllAlike-refl ms)
  | inr miss ↦ rw miss (
      cons-Outcome role m ms (prepend_first role content ms) (differs m.role role miss)
        (prepend_first-Outcome role content ms))
]

pub append_last-cons :
    (role content : String) (m : Message) (ms : List Message) (o : Option (List Message))
    → Outcome role ms o
    → Outcome role (m ∷ ms) (elim o [
      | some ms' ↦ some (m ∷ ms')
      | none ↦ if str_eq m.role role then some (behind content m ∷ ms) else none
    ])
append_last-cons role content m ms (some ms') h = (Alike-refl m, h)
append_last-cons role content m ms none h = elim (Bool-cases (str_eq m.role role)) [
  | inl hit ↦ rw hit (behind-Alike content m, AllAlike-refl ms)
  | inr miss ↦ rw miss (differs m.role role miss, h)
]

pub append_last-Outcome :
    (role content : String) (ms : List Message) → Outcome role ms (append_last role content ms)
unfolding append_last
append_last-Outcome role content [] = tt
append_last-Outcome role content (m ∷ ms) =
    append_last-cons role content m ms (append_last role content ms)
      (append_last-Outcome role content ms)

pub Alike-Ok : (m m' : Message) → Alike m m' → MessageOk m → MessageOk m'
Alike-Ok m m' a (role, inl content) = (λ e. role (sym a.role ∙ e), inl (a.content content))
Alike-Ok m m' a (role, inr (inl kind)) = (λ e. role (sym a.role ∙ e), inr (inl (a.role ∙ kind)))
Alike-Ok m m' a (role, inr (inr kind)) = (λ e. role (sym a.role ∙ e), inr (inr (a.role ∙ kind)))

pub AllAlike-Ok : (ms ms' : List Message) → AllAlike ms ms' → MessagesOk ms → MessagesOk ms'
AllAlike-Ok [] [] a h = tt
AllAlike-Ok [] (x ∷ xs) a h = absurd a
AllAlike-Ok (x ∷ xs) [] a h = absurd a
AllAlike-Ok (m ∷ ms) (m' ∷ ms') a h = (Alike-Ok m m' a.0 h.0, AllAlike-Ok ms ms' a.1 h.1)

pub AllAlike-NoSystem : (ms ms' : List Message) → AllAlike ms ms' → NoSystem ms → NoSystem ms'
AllAlike-NoSystem [] [] a h = tt
AllAlike-NoSystem [] (x ∷ xs) a h = absurd a
AllAlike-NoSystem (x ∷ xs) [] a h = absurd a
AllAlike-NoSystem (m ∷ ms) (m' ∷ ms') a h =
    (λ e. h.0 (sym a.0.role ∙ e), AllAlike-NoSystem ms ms' a.1 h.1)

pub AllAlike-Conversation :
    (ms ms' : List Message) → AllAlike ms ms' → Conversation ms → Conversation ms'
AllAlike-Conversation [] ms' a h = absurd h
AllAlike-Conversation (x ∷ xs) [] a h = absurd a
AllAlike-Conversation (m ∷ ms) (m' ∷ ms') a h =
    (Alike-Ok m m' a.0 h.0, AllAlike-Ok ms ms' a.1 h.1, AllAlike-NoSystem ms ms' a.1 h.2)

pub LacksRole-NoSystem : (ms : List Message) → LacksRole "system" ms → NoSystem ms
LacksRole-NoSystem [] h = tt
LacksRole-NoSystem (m ∷ ms) h = (h.0, LacksRole-NoSystem ms h.1)

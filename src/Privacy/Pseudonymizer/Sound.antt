-- ===== src/Privacy/Pseudonymizer/Sound.antt =====
-- privacy/pseudonymizer.go: tables of replacements whose fake values are clear of every value.
use mathlib.Core.List.{Mem, mem-cons, not-mem-nil}
use mathlib.Core.Logic.Or
use mathlib.Core.Bool.{Bool-set}
use mathlib.Core.Path.{subst}
use ao_eo.Base.{
  ◌≡◌, ◌≢◌, refl, false, List, [], ◌∷◌, String, Option, some, none, Bool-cases, inl, inr, str_eq,
  eq_iff, occurs, Clear, replace_all-gone, replace_all-keeps_out,
}
use ao_eo.Core.Types.{Message}
use ao_eo.Privacy.Pseudonymizer.{Span, lookup, replaced, replace_spans, replace_messages}

abbrev pub Table : Type 0
Table = List (String × String)

pub lookup-cons_self : (o f : String) (t : Table) → lookup o ((o, f) ∷ t) ≡ some f
unfolding lookup
lookup-cons_self o f t = rw ((eq_iff o o).1 refl)

pub lookup-cons_known :
    (k o f : String) (t : Table) → lookup k t ≢ none → lookup k ((o, f) ∷ t) ≢ none
unfolding lookup
lookup-cons_known k o f t known = elim (Bool-cases (str_eq o k)) [
  | inl same ↦ rw (same, lookup) (λ unknown. cc)
  | inr other ↦ rw (other, lookup) known
]

module _ (all : List Span) where
  -- A fake value that is clear of every detected value
  abbrev pub IsClear : String → Type 0
  IsClear fake = (sp : Span) → Mem sp all → Clear sp.original fake

  abbrev pub Sound : Table → Type 0
  Sound t = (o f : String) → lookup o t ≡ some f → IsClear f

  pub Sound-cons : (o f : String) (t : Table) → IsClear f → Sound t → Sound ((o, f) ∷ t)
  unfolding lookup
  Sound-cons o f t h s k g e = elim (Bool-cases (str_eq o k)) [
    | inl same ↦ let here : f ≡ g = (let e' = rw (same, lookup) at e in cc) in subst IsClear here h
    | inr other ↦ s k g (rw (other, lookup) at e)
  ]

  pub replaced-out :
      (q o s : String) (r : Option String)
      → ((f : String) → r ≡ some f → Clear q f × Clear o f)
      → occurs q s ≡ false
      → occurs q (replaced r o s) ≡ false
  replaced-out q o s none h e = e
  replaced-out q o s (some f) h e = replace_all-keeps_out q o f s (h f refl).0 (h f refl).1 e

  module _ (t : Table) (sound : Sound t) where
    -- What is out stays out in the rounds that follow.
    pub replace_spans-out :
        (sp : Span) (spans : List Span) (s : String)
        → Mem sp all
        → ((x : Span) → Mem x spans → Mem x all)
        → occurs sp.original s ≡ false
        → occurs sp.original (replace_spans t spans s) ≡ false
    unfolding replace_spans
    replace_spans-out sp [] s m within e = e
    replace_spans-out sp (x ∷ spans) s m within e =
        replace_spans-out sp spans _ m (λ y k. within y (mem-cons.1 (Or.inr k)))
          (replaced-out sp.original x.original s (lookup x.original t)
            (λ f found. (
              sound x.original f found sp m,
              sound x.original f found x (within x (mem-cons.1 (Or.inl refl))),
            ))
            e)

    pub replaced-gone :
        (sp : Span) (s : String) (r : Option String)
        → lookup sp.original t ≡ r
        → r ≢ none
        → Mem sp all
        → occurs sp.original (replaced r sp.original s) ≡ false
    replaced-gone sp s none e h m = absurd (h refl)
    replaced-gone sp s (some f) e h m =
        replace_all-gone sp.original f s (sound sp.original f e sp m)

    pub replace_spans-gone :
        (sp : Span) (spans : List Span) (s : String)
        → Mem sp spans
        → ((x : Span) → Mem x spans → Mem x all)
        → lookup sp.original t ≢ none
        → occurs sp.original (replace_spans t spans s) ≡ false
    unfolding replace_spans
    replace_spans-gone sp [] s m within h = absurd (not-mem-nil m)
    replace_spans-gone sp (x ∷ spans) s m within h =
        let rest = λ (y : Span) (k : Mem y spans). within y (mem-cons.1 (Or.inr k)) in
        Or.elim (Bool-set _ _) (mem-cons.0 m)
          (λ (same : sp ≡ x).
            replace_spans-out sp spans _ (within sp m) rest
              (rw (← same) (replaced-gone sp s (lookup sp.original t) refl h (within sp m))))
          (λ (k : Mem sp spans). replace_spans-gone sp spans _ k rest h)

    pub replace_messages-gone :
        (sp : Span) (spans : List Span) (ms : List Message) (msg : Message)
        → Mem sp spans
        → ((x : Span) → Mem x spans → Mem x all)
        → lookup sp.original t ≢ none
        → Mem msg (replace_messages t spans ms)
        → occurs sp.original msg.content ≡ false
    unfolding replace_messages
    replace_messages-gone sp spans [] msg m within h k = absurd (not-mem-nil k)
    replace_messages-gone sp spans (x ∷ ms) msg m within h k =
        Or.elim (Bool-set _ _) (mem-cons.0 k)
          (λ same. rw same (replace_spans-gone sp spans x.content m within h))
          (λ k'. replace_messages-gone sp spans ms msg m within h k')

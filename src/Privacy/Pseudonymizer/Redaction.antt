-- ===== src/Privacy/Pseudonymizer/Redaction.antt =====
-- privacy/pseudonymizer.go: PseudonymizeRequest lets no detected value through.
use mathlib.Core.List.{Mem}
use mathlib.Core.List.Perm
use mathlib.Core.Logic.Or
use ao_eo.Base.{◌≡◌, ◌≢◌, false, List, String, some, none, occurs}
use ao_eo.Core.Types.{Message, Request, PrivacyMapping}
use ao_eo.Privacy.Pseudonymizer.Ensures.{Ensures}
use ao_eo.Privacy.Pseudonymizer.{Span, Vault, Replacing, lookup, concat, contents}
use ao_eo.Privacy.Pseudonymizer.Sound.{Table, IsClear, Sound}

-- No message of the request that is sent contains a value of the spans.
abbrev pub Redacted : {W : Type 0} → List Span → Request × (List PrivacyMapping × W) → Type 0
Redacted spans sent =
    (sp : Span) (m : Message)
    → Mem sp spans
    → Mem m sent.0.messages
    → occurs sp.original m.content ≡ false

-- The fake values of the mappings are clear of every value of the spans.
abbrev pub NewClear : List Span → List PrivacyMapping → Type 0
NewClear all ms = (m : PrivacyMapping) → Mem m ms → IsClear all m.fake

-- The fake values that the store has for the values of the spans are clear of every one.
abbrev pub OldClear : {W : Type 0} → Vault W → String → List Span → Type 0
OldClear {W} v session all =
    (sp : Span)
    → Mem sp all
    → (f : String) (w : W) → v.get_fake session sp.original w ≡ some f
    → IsClear all f

module _ {W : Type 0} (v : Vault W) (session : String) (all : List Span) where
  -- The table is sound as far as the new mappings are.
  abbrev Traced : Replacing W → Type 0
  Traced r = NewClear all r.mappings → Sound all r.replacements

  module _ (old : OldClear v session all) where
    -- What a round keeps: the table stays traced, and knows what it knew and more.
    abbrev Kept : Table → (String → Type 0) → Replacing W → Type 0
    Kept t Known r' =
        Traced r'
        × ((k : String) → lookup k t ≢ none → lookup k r'.replacements ≢ none)
        × ((k : String) → Known k → lookup k r'.replacements ≢ none)

    abbrev Is : Span → String → Type 0
    Is sp k = sp.original ≡ k

    abbrev KeptBy : Span → Replacing W → Replacing W → Type 0
    KeptBy sp r r' = Kept r.replacements (Is sp) r'

    abbrev KeptByAll : List Span → Replacing W → Replacing W → Type 0
    KeptByAll spans r r' =
        Traced r'
        × ((k : String) → lookup k r.replacements ≢ none → lookup k r'.replacements ≢ none)
        × ((sp : Span) → Mem sp spans → lookup sp.original r'.replacements ≢ none)

    abbrev Trusting : List Span → Request × (List PrivacyMapping × W) → Type 0
    Trusting spans sent = NewClear all sent.1.0 → Redacted spans sent

-- The spans that the detector reports for a request
abbrev pub detected_in : {W : Type 0} → Vault W → Request → W → List Span
detected_in v req w = concat (v.detect_batch (contents req.messages) w).0

-- ===== src/Privacy/Pseudonymizer.antt =====
-- privacy/pseudonymizer.go: Pseudonymizer. The mapping store, the detector and the generator stand
-- for a world `W`. Log output is left out.
pub mod Restoring
pub mod Ensures
pub mod Sound
pub mod Redaction
pub mod Marks
pub mod Pieces
pub mod Restoration
pub mod Draws
pub mod Reuse
mod Tests
mod RedactionTests
use Prim.Native.String.{len}
use ao_eo.Base.{
  ℕ, zero, suc, ◌+◌, ◌-◌, String, Bool, true, false, ◌&&◌, not, List, [], ◌∷◌, ◌++◌, map, Option,
  none, some, ltb, if◌then◌else◌, str_eq, exchange_sort, occurs, replace_all, append, size,
}
use ao_eo.Core.Types.{Message, Request, Response, Choice, StreamReply, PrivacyMapping}

-- Span, with its score left out
pub record Span : Type 0 where
  pub start : ℕ
  pub end : ℕ
  pub label : String
  pub original : String

-- store.Entry
pub record Entry : Type 0 where
  pub session : String
  pub original : String
  pub fake : String

-- The interface store.MappingStore, the detector, the generator, which may be that of Generator.Fakes,
-- and the clock. An error of GetFake or GetOriginal is ignored by the code, which then finds nothing;
-- `put` and `get_session` may give the text of an error.
pub record Vault (W : Type 0) : Type 0 where
  pub get_fake : String → String → W → Option String
  pub get_original : String → String → W → Option String
  pub put : String → String → String → String → W → Option String × W
  pub get_session : String → W → Option String × List Entry
  pub generate : String → String → W → String × W
  pub detect_batch : List String → W → List (List Span) × W
  pub now : W → ℕ

-- How PseudonymizeRequest comes back: `refused` with the text of the store's error, `stuck` while
-- the fuel for the draws of the generator is used up.
pub data Pass (W A : Type 0) : Type 0 where
  passed : A → Pass W A
  refused : String → W → Pass W A
  stuck : Pass W A

abbrev pub and_then : {W A B : Type 0} → Pass W A → (A → Pass W B) → Pass W B
and_then (passed a) f = f a
and_then (refused e w) f = refused e w
and_then stuck f = stuck

-- The variables of the loop over the spans
pub record Replacing (W : Type 0) : Type 0 where
  pub replacements : List (String × String)
  pub mappings : List PrivacyMapping
  pub world : W

unfoldable pub lookup : String → List (String × String) → Option String
lookup k [] = none
lookup k ((j, v) ∷ m) = if str_eq j k then some v else lookup k m

abbrev pub concat : {A : Type 0} → List (List A) → List A
concat [] = []
concat (xs ∷ xss) = xs ++ concat xss

-- The order by length, longest first, which is that of sort.Slice but among equal lengths
unfoldable pub shorter : Span → Span → Bool
shorter a b = ltb (len a.original) (len b.original)

unfoldable pub sort_spans : List Span → List Span
unfolding exchange_sort shorter
sort_spans = exchange_sort shorter

abbrev pub contents : List Message → List String
contents [] = []
contents (m ∷ ms) = m.content ∷ contents ms

abbrev pub replaced : Option String → String → String → String
replaced none original s = s
replaced (some fake) original s = replace_all original fake s

-- The replacements in one text, in the order of the spans
unfoldable pub replace_spans : List (String × String) → List Span → String → String
unfolding lookup replace_all
replace_spans reps [] s = s
replace_spans reps (sp ∷ spans) s =
    replace_spans reps spans (replaced (lookup sp.original reps) sp.original s)

unfoldable pub replace_messages : List (String × String) → List Span → List Message → List Message
unfolding replace_spans
replace_messages reps spans [] = []
replace_messages reps spans (m ∷ ms) =
    record m { content = replace_spans reps spans m.content } ∷ replace_messages reps spans ms

module _ {W : Type 0} (v : Vault W) (session : String) where
  -- The loop that draws until the fake value is not in use, with fuel
  unfoldable pub fresh_fake : ℕ → String → String → String → W → Pass W (String × W)
  fresh_fake zero label original fake w = stuck
  fresh_fake (suc fuel) label original fake w = elim (v.get_original session fake w) [
    | none ↦ passed (fake, w)
    | some _ ↦
        let drawn = v.generate label original w in fresh_fake fuel label original drawn.0 drawn.1
  ]

  -- The mapping is stored, and noted unless that failed.
  abbrev pub noted : Option String → Span → String → Replacing W → W → Pass W (Replacing W)
  noted (some e) sp fake r w = refused e w
  noted none sp fake r w = passed (record {
    replacements = (sp.original, fake) ∷ r.replacements;
    mappings =
        r.mappings
        ++ record {
          session = session;
          original = sp.original;
          fake = fake;
          kind = sp.label;
          created_at = v.now w;
        }
          ∷ [];
    world = w;
  })

  unfoldable pub store_fake : Span → String × W → Replacing W → Pass W (Replacing W)
  store_fake sp (fake, w) r =
      let stored = v.put session fake sp.original sp.label w in noted stored.0 sp fake r stored.1

  -- A value without a mapping in the session
  unfoldable pub create : ℕ → Span → Replacing W → Pass W (Replacing W)
  unfolding fresh_fake store_fake
  create fuel sp r =
      let drawn = v.generate sp.label sp.original r.world in
      and_then (fresh_fake fuel sp.label sp.original drawn.0 drawn.1)
        (λ (found : String × W). store_fake sp found r)

  abbrev pub reuse_or :
      Option String → String → Replacing W → Pass W (Replacing W) → Pass W (Replacing W)
  reuse_or (some fake) original r created =
      passed (record r { replacements = (original, fake) ∷ r.replacements })
  reuse_or none original r created = created

  abbrev pub unless_seen : Option String → Replacing W → Pass W (Replacing W) → Pass W (Replacing W)
  unless_seen (some fake) r other = passed r
  unless_seen none r other = other

  -- One round of the loop over the spans
  unfoldable pub assign : ℕ → Span → Replacing W → Pass W (Replacing W)
  unfolding create lookup
  assign fuel sp r =
      unless_seen (lookup sp.original r.replacements) r
        (reuse_or (v.get_fake session sp.original r.world) sp.original r (create fuel sp r))

  unfoldable pub assign_all : ℕ → List Span → Replacing W → Pass W (Replacing W)
  unfolding assign
  assign_all fuel [] r = passed r
  assign_all fuel (sp ∷ spans) r = and_then (assign fuel sp r) (assign_all fuel spans)

  abbrev pub redacted : List Span → Request → Replacing W → Request × (List PrivacyMapping × W)
  redacted spans req r = (
    record req { messages = replace_messages r.replacements spans req.messages },
    (r.mappings, r.world),
  )

  -- The steps after the detection
  unfoldable pub pseudonymize_spans :
      ℕ → List Span → Request → W → Pass W (Request × (List PrivacyMapping × W))
  unfolding assign_all replace_messages
  pseudonymize_spans fuel [] req w = passed (req, ([], w))
  pseudonymize_spans fuel (sp ∷ spans) req w =
      let sorted = sort_spans (sp ∷ spans) in
      and_then (assign_all fuel sorted (record { replacements = []; mappings = []; world = w }))
        (λ (r : Replacing W). passed (redacted sorted req r))

  -- PseudonymizeRequest
  unfoldable pub pseudonymize_request :
      ℕ → Request → W → Pass W (Request × (List PrivacyMapping × W))
  unfolding pseudonymize_spans
  pseudonymize_request fuel req w =
      let detected = v.detect_batch (contents req.messages) w in
      pseudonymize_spans fuel (concat detected.0) req detected.1

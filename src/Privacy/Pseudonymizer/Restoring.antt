-- ===== src/Privacy/Pseudonymizer/Restoring.antt =====
-- privacy/pseudonymizer.go: replaceFake, and the ways of restoring a response.
use Prim.Native.String.{len}
use ao_eo.Base.{
  String, Bool, List, [], ◌∷◌, Option, none, some, ltb, exchange_sort, replace_all, append,
}
use ao_eo.Core.Types.{Response, Choice, StreamReply, PrivacyMapping}
use ao_eo.Privacy.Pseudonymizer.{Entry, Vault}

-- The marks after which, and before which, replaceFake looks again
abbrev pub closing_marks : List String
closing_marks = "." ∷ "," ∷ "!" ∷ "?" ∷ ";" ∷ ":" ∷ ")" ∷ "]" ∷ "}" ∷ []

abbrev pub opening_marks : List String
opening_marks = "(" ∷ "[" ∷ "{" ∷ []

unfoldable pub replace_before : List String → String → String → String → String
unfolding replace_all
replace_before [] fake original s = s
replace_before (p ∷ ps) fake original s =
    replace_before ps fake original (replace_all (append fake p) (append original p) s)

unfoldable pub replace_behind : List String → String → String → String → String
unfolding replace_all
replace_behind [] fake original s = s
replace_behind (p ∷ ps) fake original s =
    replace_behind ps fake original (replace_all (append p fake) (append p original) s)

-- replaceFake
unfoldable pub replace_fake : String → String → String → String
unfolding replace_before replace_behind replace_all
replace_fake text fake original =
    replace_behind opening_marks fake original
      (replace_before closing_marks fake original (replace_all fake original text))

unfoldable pub shorter_fake : Entry → Entry → Bool
shorter_fake a b = ltb (len a.fake) (len b.fake)

unfoldable pub sort_entries : List Entry → List Entry
unfolding exchange_sort shorter_fake
sort_entries = exchange_sort shorter_fake

unfoldable pub restore_text : List Entry → String → String
unfolding replace_fake
restore_text [] s = s
restore_text (e ∷ es) s = restore_text es (replace_fake s e.fake e.original)

unfoldable pub restore_choices : List Entry → List Choice → List Choice
unfolding restore_text
restore_choices es [] = []
restore_choices es (c ∷ cs) =
    record c { message = record c.message { content = restore_text es c.message.content } }
    ∷ restore_choices es cs

-- restoreWithEntries
unfoldable pub restore_with_entries : List Entry → Response → Response
unfolding restore_choices sort_entries
restore_with_entries [] resp = resp
restore_with_entries (e ∷ es) resp = record resp {
  choices = restore_choices (sort_entries (e ∷ es)) resp.choices;
}

unfoldable pub entries_of : List PrivacyMapping → List Entry
entries_of [] = []
entries_of (m ∷ ms) =
    record { session = m.session; original = m.original; fake = m.fake } ∷ entries_of ms

-- RestoreResponseWithMappings
unfoldable pub restore_with_mappings : Option Response → List PrivacyMapping → Option Response
unfolding restore_with_entries entries_of
restore_with_mappings none ms = none
restore_with_mappings (some resp) ms = some (restore_with_entries (entries_of ms) resp)

abbrev pub with_session : Option String × List Entry → Response → Option String × Option Response
with_session (some e, es) resp = (some e, none)
with_session (none, es) resp = (none, some (restore_with_entries es resp))

-- RestoreResponse: an error's text, or the response
unfoldable pub restore_response :
    {W : Type 0} → Vault W → String → Option Response → W → Option String × Option Response
unfolding restore_with_entries
restore_response v session none w = (none, none)
restore_response v session (some resp) w = with_session (v.get_session session w) resp

abbrev pub restored_chunk : Option String × List Entry → StreamReply → StreamReply
restored_chunk (some e, es) reply = reply
restored_chunk (none, es) reply = record reply {
  chunk = record reply.chunk {
    delta = record reply.chunk.delta {
      content = restore_text (sort_entries es) reply.chunk.delta.content;
    };
  };
}

-- RestoreStreamChunk, for a chunk that is there
unfoldable pub restore_stream_chunk :
    {W : Type 0} → Vault W → String → StreamReply → W → StreamReply
unfolding restore_text sort_entries
restore_stream_chunk v session reply w = elim reply.error [
  | some e ↦ reply
  | none ↦ restored_chunk (v.get_session session w) reply
]

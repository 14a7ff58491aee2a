-- ===== src/Privacy/Pseudonymizer/Tests.antt =====
-- privacy/pseudonymizer.go: one conversation, pseudonymized and restored.
use Prim.Native.String.{len}
use mathlib.Core.List.{mem-singleton}
use ao_eo.Base.{
  ℕ, zero, suc, ◌+◌, ◌<◌, ◌≡◌, refl, String, Bool, true, false, List, [], ◌∷◌, Option, some, none,
  arith, inl, str_eq, String-set, pos, has,
}
use ao_eo.Core.Float32.{units}
use ao_eo.Core.Types.{Message, Request, Response, PrivacyMapping, content_of}
use ao_eo.Engine.Stream.{no_message}
use ao_eo.Privacy.Generator.{generic_mask}
use ao_eo.Privacy.Pseudonymizer.{
  Span, Entry, Vault, passed, stuck, fresh_fake, pseudonymize_request,
}
use ao_eo.Privacy.Pseudonymizer.Restoring.{entries_of, restore_with_mappings, restore_response}
use ao_eo.Privacy.Pseudonymizer.Pieces.{Piece, plain, fake_of, written, meant}
use ao_eo.Privacy.Pseudonymizer.Restoration.{AllMarked, AllIn, restore-Meant}
use ao_eo.Privacy.Pseudonymizer.Draws.{
  Taken, drawn_after, fresh_fake-first, pseudonymize_request-stuck,
}

abbrev pub says : String → Message
says s = record no_message { role = "user"; content = s }

abbrev pub request_of : List Message → Request
request_of ms = record {
  model = "";
  messages = ms;
  temperature = units (pos 0);
  max_tokens = pos 0;
  top_p = units (pos 0);
  presence_penalty = units (pos 0);
  frequency_penalty = units (pos 0);
  stop = [];
  seed = none;
  response_format = "";
  stream = false;
  tags = [];
  tools = [];
  tool_choice = "";
  parallel_tool_calls = false;
  metadata = [];
}

abbrev pub person : String → Span
person name = record { start = 0; end = len name; label = "person"; original = name }

abbrev people : List Span
people = person "Al" ∷ person "Ally" ∷ []

-- A store without mappings; each draw gives #0, #1 or #2 by the world.
abbrev drawn : ℕ → String
drawn zero = "#0"
drawn (suc zero) = "#1"
drawn (suc (suc n)) = "#2"

abbrev pub vault : Vault ℕ
vault = record {
  get_fake = λ s o w. none;
  get_original = λ s f w. none;
  put = λ s f o l w. (none, w);
  get_session = λ s w. (none, []);
  generate = λ l o w. (drawn w, w + 1);
  detect_batch = λ ts w. (people ∷ [], w);
  now = λ w. w;
}

Entry-set : IsSet Entry
Entry-set = hlevel String-set

-- One mapping, of the session and of the request
abbrev ann : PrivacyMapping
ann = record { session = "s"; original = "Ann"; fake = "#7"; kind = "person"; created_at = 0 }

abbrev entry : Entry
entry = record { session = "s"; original = "Ann"; fake = "#7" }

abbrev pieces : List Piece
pieces = fake_of entry ∷ plain ", call " ∷ fake_of entry ∷ plain "!" ∷ []

abbrev reply : Response
reply = record {
  id = "r";
  model = "m";
  choices = record { index = 0; message = says "#7, call #7!"; finish_reason = "stop" } ∷ [];
  usage = record { prompt_tokens = 1; completion_tokens = 1; total_tokens = 2 };
  created_at = 0;
}

abbrev kept : Vault ℕ
kept = record vault { get_session = λ s w. (none, entry ∷ []) }

entry_Marked : AllMarked (entry ∷ []) pieces
unfolding has
entry_Marked e m =
    rw ((mem-singleton Entry-set).0 m)
      ((inl (refl, refl), refl), (refl, ((inl (refl, refl), refl), (refl, tt))))

entry_In : AllIn (entry ∷ []) pieces
entry_In = ((mem-singleton Entry-set).1 refl, ((mem-singleton Entry-set).1 refl, tt))

ann_Marked : AllMarked (entries_of (ann ∷ [])) pieces
unfolding entries_of
ann_Marked = entry_Marked

ann_In : AllIn (entries_of (ann ∷ [])) pieces
unfolding entries_of
ann_In = entry_In

reply_spells : "#7, call #7!" ≡ written pieces
unfolding written
reply_spells = refl

restore-Meant_example :
    (content_of (restore_with_mappings (some reply) (ann ∷ [])) ≡ meant pieces)
    × (content_of (restore_response kept "s" (some reply) 0).1 ≡ meant pieces)
restore-Meant_example =
    restore-Meant kept "s" 0 (entry ∷ []) (ann ∷ []) reply pieces (_, _, refl, reply_spells)
      ann_Marked ann_In refl entry_Marked entry_In

pieces-meant : meant pieces ≡ "Ann, call Ann!"
unfolding meant
pieces-meant = refl

-- #0 is in use.
abbrev used_if_zero : Bool → Option String
used_if_zero true = some "Bea"
used_if_zero false = none

abbrev crowded : Vault ℕ
crowded = record vault { get_original = λ s f w. used_if_zero (str_eq f "#0") }

first-Taken :
    (m : ℕ)
    → m < 1
    → Taken crowded "s" "person" "Al" (drawn_after crowded "s" "person" "Al" m ("#0", 1))
unfolding drawn_after
first-Taken zero lt e = cc
first-Taken (suc m) lt e = absurd (omega arith)

second_free :
    let x : String × ℕ = drawn_after crowded "s" "person" "Al" 1 ("#0", 1) in
    crowded.get_original "s" x.0 x.1 ≡ none
unfolding drawn_after
second_free = refl

fresh_fake-first_example :
    fresh_fake crowded "s" 2 "person" "Al" "#0" 1
    ≡ passed (drawn_after crowded "s" "person" "Al" 1 ("#0", 1))
fresh_fake-first_example =
    fresh_fake-first crowded "s" "person" "Al" 1 2 ("#0", 1) first-Taken second_free (omega arith)

-- 1234 has been masked before 5678.
abbrev code : Span
code = record { start = 0; end = 4; label = "code"; original = "5678" }

abbrev if_mask : Bool → Option String
if_mask true = some "1234"
if_mask false = none

abbrev masking : Vault ℕ
masking = record vault {
  generate = λ l o w. (generic_mask o, w + 1);
  get_original = λ s f w. if_mask (str_eq f "****");
  detect_batch = λ ts w. ((code ∷ []) ∷ [], w);
}

abbrev coded : Request
coded = request_of (says "5678" ∷ [])

four_stars : (w : ℕ) → masking.get_original "s" (generic_mask "1234") w ≡ some "1234"
unfolding generic_mask
four_stars w = refl

pseudonymize_request-stuck_example : pseudonymize_request masking "s" 9 coded 0 ≡ stuck
pseudonymize_request-stuck_example =
    pseudonymize_request-stuck masking "s" code "1234" refl (λ w. refl) four_stars (λ w. refl) 9
      coded 0 refl

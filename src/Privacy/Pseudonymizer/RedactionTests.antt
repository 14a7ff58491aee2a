-- ===== src/Privacy/Pseudonymizer/RedactionTests.antt =====
-- privacy/pseudonymizer.go: a request with a name and a phone number, with the fake values of
-- FakeGenerator.
use Prim.Native.Char.{code as ascii}
use mathlib.Core.Logic.Or
use ao_eo.Base.{ℕ, ◌+◌, ◌%◌, String, false, ◌&&◌, leb, List, [], ◌∷◌}
use ao_eo.Core.Types.{Request, PrivacyMapping}
use ao_eo.Privacy.Generator.Fakes.{Classes, generate}
use ao_eo.Privacy.Pseudonymizer.{Span, Vault}
use ao_eo.Privacy.Pseudonymizer.Tests.{says, request_of, person, vault}

-- FakeGenerator, with a random source that counts, and ASCII only
abbrev classes : Classes
classes = record {
  is_digit = λ c. leb 48 (ascii c) && leb (ascii c) 57;
  is_upper = λ c. leb 65 (ascii c) && leb (ascii c) 90;
  is_lower = λ c. leb 97 (ascii c) && leb (ascii c) 122;
  is_han = λ c. false;
}

abbrev phone : Span
phone = record { start = 11; end = 22; label = "phone"; original = "13712345678" }

abbrev contact : List Span
contact = person "Ann" ∷ phone ∷ []

abbrev generating : Vault ℕ
generating = record vault {
  generate = generate (λ n w. (w % n, w + 1)) classes;
  detect_batch = λ ts w. (contact ∷ [], w);
}

abbrev message : Request
message = request_of (says "Call Ann: 13712345678" ∷ says "Who? Ann?" ∷ [])

abbrev new_mapping : String → String → String → ℕ → PrivacyMapping
new_mapping label o f n = record {
  session = "s";
  original = o;
  fake = f;
  kind = label;
  created_at = n;
}

abbrev new_mappings : List PrivacyMapping
new_mappings =
    new_mapping "phone" "13712345678" "15000000006" 7
    ∷ new_mapping "person" "Ann" "Linda Smith" 9
    ∷ []

abbrev sent_message : Request × (List PrivacyMapping × ℕ)
sent_message = (
  request_of (says "Call Linda Smith: 15000000006" ∷ says "Who? Linda Smith?" ∷ []),
  (new_mappings, 9),
)

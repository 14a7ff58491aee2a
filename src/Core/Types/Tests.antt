-- ===== src/Core/Types/Tests.antt =====
-- core/types.go: a request with a system message after the first, and with NaN for top_p.
use ao_eo.Base.{◌*◌, ◌^◌, ◌≡◌, ◌↔◌, String, [], ◌∷◌, false, none, pos, negsuc}
use ao_eo.Core.Float32.{nan, units}
use ao_eo.Core.Types.{Message, Request, validate}
use ao_eo.Core.Types.Validity.{Valid, validate-nil}

abbrev said : String → String → Message
said role content = record {
  role = role;
  content = content;
  reasoning_content = "";
  name = "";
  tool_calls = [];
  tool_call_id = "";
}

abbrev request : Request
request = record {
  model = "";
  messages = said "user" "hello" ∷ said "system" "rules" ∷ said "assistant" "" ∷ [];
  temperature = units (pos (5 * 2 ^ 147));
  max_tokens = negsuc 0;
  top_p = nan;
  presence_penalty = units (pos 0);
  frequency_penalty = units (pos 0);
  stop = [];
  seed = none;
  response_format = "";
  stream = false;
  tags = [];
  tools = [];
  tool_choice = "";
  parallel_tool_calls = false;
  metadata = [];
}

validate-nil_example : (validate request ≡ []) ↔ Valid request
validate-nil_example = validate-nil request

-- ===== src/Engine/Prompt/Tests.antt =====
-- internal/engine/prompt.go: a system prompt with a variable, and one behind the last user message.
use ao_eo.Base.{◌≡◌, refl, [], ◌∷◌, none, false, pos, is_prefix}
use ao_eo.Core.Float32.{units}
use ao_eo.Core.Types.{Request, validate}
use ao_eo.Engine.Prompt.{
  PromptTemplate, PromptInjector, with_role, inject, new_prompt_injector, add_template,
  replace_vars,
}
use ao_eo.Engine.Prompt.Extension.{Filled, inject-validate}

abbrev request : Request
request = record {
  model = "";
  messages = with_role "user" "hello" ∷ [];
  temperature = units (pos 0);
  max_tokens = pos 0;
  top_p = units (pos 0);
  presence_penalty = units (pos 0);
  frequency_penalty = units (pos 0);
  stop = [];
  seed = none;
  response_format = "";
  stream = false;
  tags = [];
  tools = [];
  tool_choice = "";
  parallel_tool_calls = false;
  metadata = [];
}

abbrev rules : PromptTemplate
rules = record {
  provider = "*";
  model = "";
  position = "system";
  content = "Be {{how}}.";
  vars = ("how", "brief") ∷ [];
}

abbrev reminder : PromptTemplate
reminder = record {
  provider = "glm";
  model = "";
  position = "append_user";
  content = "!";
  vars = [];
}

abbrev injector : PromptInjector
injector = add_template reminder (add_template rules new_prompt_injector)

accepted : validate request ≡ []
unfolding validate
accepted = refl

filled : Filled injector.templates
unfolding new_prompt_injector add_template replace_vars
filled = (λ e. cc, (λ e. cc, tt))

inject-validate_example : validate (inject injector "glm" "m" request) ≡ []
inject-validate_example = inject-validate injector "glm" "m" request filled accepted

injected :
    (inject injector "glm" "m" request).messages
    ≡ with_role "system" "Be brief." ∷ with_role "user" "hello\n\n!" ∷ []
unfolding inject new_prompt_injector add_template is_prefix
injected = refl

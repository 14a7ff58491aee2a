-- ===== src/Core/Types.antt =====
-- core/types.go: requests, responses and the checks of a request. Values of type `any` and maps of
-- metadata are texts here.
pub mod Validity
mod Tests
use ao_eo.Base.{
  ℕ, zero, suc, ◌+◌, String, Bool, true, false, not, ◌&&◌, ◌||◌, List, [], ◌∷◌, ◌++◌, length,
  Option, none, some, ltb, ◌==◌, if◌then◌else◌, str_eq, ℤ, pos, is_negative, Error,
}
use ao_eo.Core.Float32.{Float32, below, above, whole}

pub record ToolCall : Type 0 where
  pub id : String
  pub kind : String
  pub function_name : String
  pub arguments : String
  pub index : ℕ

pub record Message : Type 0 where
  pub role : String
  pub content : String
  pub reasoning_content : String
  pub name : String
  pub tool_calls : List ToolCall
  pub tool_call_id : String

pub record FunctionDefinition : Type 0 where
  pub name : String
  pub description : String
  pub parameters : String
  pub strict : Bool

pub record Tool : Type 0 where
  pub kind : String
  pub function : Option FunctionDefinition

pub record Request : Type 0 where
  pub model : String
  pub messages : List Message
  pub temperature : Float32
  pub max_tokens : ℤ
  pub top_p : Float32
  pub presence_penalty : Float32
  pub frequency_penalty : Float32
  pub stop : List String
  pub seed : Option ℤ
  pub response_format : String
  pub stream : Bool
  pub tags : List String
  pub tools : List Tool
  pub tool_choice : String
  pub parallel_tool_calls : Bool
  pub metadata : List (String × String)

pub record Usage : Type 0 where
  pub prompt_tokens : ℕ
  pub completion_tokens : ℕ
  pub total_tokens : ℕ

pub record Choice : Type 0 where
  pub index : ℕ
  pub message : Message
  pub finish_reason : String

pub record Response : Type 0 where
  pub id : String
  pub model : String
  pub choices : List Choice
  pub usage : Usage
  pub created_at : ℕ

pub record StreamChunk : Type 0 where
  pub index : ℕ
  pub delta : Message
  pub finish_reason : String

-- StreamCompletionResponse
pub record StreamReply : Type 0 where
  pub id : String
  pub model : String
  pub chunk : StreamChunk
  pub usage : Usage
  pub error : Option Error

-- PrivacyMapping
pub record PrivacyMapping : Type 0 where
  pub session : String
  pub original : String
  pub fake : String
  pub kind : String
  pub created_at : ℕ

-- ChatCompletionResponse.Content; `none` is a nil receiver.
unfoldable pub content_of : Option Response → String
content_of none = ""
content_of (some r) = elim r.choices [ [] ↦ "" | c ∷ _ ↦ c.message.content ]

-- What Validate reports, with the index of the message.
pub data Issue : Type 0 where
  no_messages : Issue
  no_role no_content late_system : ℕ → Issue
  many_systems : ℕ → Issue
  bad_temperature bad_top_p bad_max_tokens : Issue

abbrev issue_if : Bool → Issue → List Issue
issue_if true i = i ∷ []
issue_if false i = []

-- content is required, unless the role is assistant or tool
unfoldable pub lacks_content : Message → Bool
lacks_content m =
    str_eq m.content "" && not (str_eq m.role "assistant") && not (str_eq m.role "tool")

unfoldable pub message_issues : ℕ → Message → List Issue
unfolding lacks_content
message_issues i m =
    issue_if (str_eq m.role "") (no_role i)
    ++ issue_if (lacks_content m) (no_content i)
    ++ issue_if (str_eq m.role "system" && not (i == 0)) (late_system i)

unfoldable pub messages_issues : ℕ → List Message → List Issue
unfolding message_issues
messages_issues i [] = []
messages_issues i (m ∷ ms) = message_issues i m ++ messages_issues (i + 1) ms

unfoldable pub system_count : List Message → ℕ
system_count [] = 0
system_count (m ∷ ms) =
    let rest = system_count ms in if str_eq m.role "system" then suc rest else rest

-- ChatCompletionRequest.Validate
unfoldable pub validate : Request → List Issue
unfolding messages_issues system_count below above
validate req =
    issue_if (length req.messages == 0) no_messages
    ++ (messages_issues 0 req.messages
        ++ (issue_if (ltb 1 (system_count req.messages)) (many_systems (system_count req.messages))
            ++ (issue_if (below req.temperature (pos 0) || above req.temperature (whole 2))
                  bad_temperature
                ++ (issue_if (below req.top_p (pos 0) || above req.top_p (whole 1)) bad_top_p
                    ++ issue_if (is_negative req.max_tokens) bad_max_tokens))))

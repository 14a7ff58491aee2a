-- ===== src/Engine/Prompt.antt =====
-- internal/engine/prompt.go: PromptInjector. The variables of a template are a list, in the order in
-- which the map is iterated.
pub mod Alike
pub mod Extension
mod Tests
use ao_eo.Base.{
  ℕ, zero, suc, ◌-◌, String, Bool, true, false, ◌&&◌, ◌||◌, not, List, [], ◌∷◌, ◌++◌, Option, none,
  some, if◌then◌else◌, str_eq, is_prefix, append, size,
}
use ao_eo.Core.Types.{Message, Request}
use ao_eo.Engine.Stream.{no_message}

pub record PromptTemplate : Type 0 where
  pub provider : String
  pub model : String
  pub position : String
  pub content : String
  pub vars : List (String × String)

pub record PromptInjector : Type 0 where
  pub templates : List PromptTemplate

unfoldable pub new_prompt_injector : PromptInjector
new_prompt_injector = record { templates = [] }

unfoldable pub add_template : PromptTemplate → PromptInjector → PromptInjector
add_template t pi = record { templates = pi.templates ++ t ∷ [] }

unfoldable pub set_templates : List PromptTemplate → PromptInjector → PromptInjector
set_templates ts pi = record { templates = ts }

unfoldable pub clear : PromptInjector → PromptInjector
clear pi = record { templates = [] }

unfoldable pub match_wildcard : String → String → Bool
match_wildcard pattern_ value = str_eq pattern_ "" || str_eq pattern_ "*" || str_eq pattern_ value

-- The pairs that replaceVars gives to strings.NewReplacer
unfoldable pub placeholders : List (String × String) → List (String × String)
placeholders [] = []
placeholders ((k, v) ∷ vars) = (append "{{" (append k "}}"), v) ∷ placeholders vars

-- The first pair whose text begins here: the length of that text and its replacement
unfoldable pub pair_at : List (String × String) → String → Option (ℕ × String)
unfolding is_prefix
pair_at [] s = none
pair_at ((old, new) ∷ pairs) s = if is_prefix old s then some (size old, new) else pair_at pairs s

-- Replacer.Replace, for texts that are not empty; `skip` characters of a match are to be passed over.
unfoldable pub replace_pairs : List (String × String) → ℕ → String → String
unfolding pair_at
replace_pairs pairs skip String.[] = String.[]
replace_pairs pairs (suc skip) (String.◌∷◌ c s) = replace_pairs pairs skip s
replace_pairs pairs zero (String.◌∷◌ c s) = elim (pair_at pairs (String.◌∷◌ c s)) [
  | some (n, new) ↦ append new (replace_pairs pairs (n - 1) s)
  | none ↦ String.◌∷◌ c (replace_pairs pairs zero s)
]

unfoldable pub replace_vars : String → List (String × String) → String
unfolding replace_pairs placeholders
replace_vars template [] = template
replace_vars template (v ∷ vars) = replace_pairs (placeholders (v ∷ vars)) zero template

abbrev pub with_role : String → String → Message
with_role role content = record no_message { role = role; content = content }

abbrev pub before : String → Message → Message
before content m = record m { content = append content (append "\n\n" m.content) }

abbrev pub behind : String → Message → Message
behind content m = record m { content = append m.content (append "\n\n" content) }

-- The first message of the role, with the content before its own; `none` if there is none.
unfoldable pub prepend_first : String → String → List Message → Option (List Message)
prepend_first role content [] = none
prepend_first role content (m ∷ ms) =
    let rest = prepend_first role content ms in
    if str_eq m.role role
    then some (before content m ∷ ms)
    else elim rest [ none ↦ none | some ms' ↦ some (m ∷ ms') ]

-- The last message of the role, with the content behind its own; `none` if there is none.
unfoldable pub append_last : String → String → List Message → Option (List Message)
append_last role content [] = none
append_last role content (m ∷ ms) = elim (append_last role content ms) [
  | some ms' ↦ some (m ∷ ms')
  | none ↦ if str_eq m.role role then some (behind content m ∷ ms) else none
]

abbrev pub or_else : Option (List Message) → List Message → List Message
or_else none ms = ms
or_else (some ms') ms = ms'

unfoldable pub inject_system : String → List Message → List Message
unfolding prepend_first
inject_system content ms =
    or_else (prepend_first "system" content ms) (with_role "system" content ∷ ms)

unfoldable pub inject_prepend_user : String → List Message → List Message
unfolding prepend_first
inject_prepend_user content ms =
    or_else (prepend_first "user" content ms) (ms ++ with_role "user" content ∷ [])

unfoldable pub inject_append_user : String → List Message → List Message
unfolding append_last
inject_append_user content ms =
    or_else (append_last "user" content ms) (ms ++ with_role "user" content ∷ [])

-- The switch on the position
unfoldable pub inject_at : String → String → List Message → List Message
unfolding inject_system inject_prepend_user inject_append_user
inject_at position content ms =
    if str_eq position "system"
    then inject_system content ms
    else if str_eq position "prepend_user"
    then inject_prepend_user content ms
    else if str_eq position "append_user"
    then inject_append_user content ms
    else inject_system content ms

unfoldable pub inject_template : String → String → PromptTemplate → List Message → List Message
unfolding inject_at replace_vars match_wildcard
inject_template provider model t ms =
    if match_wildcard t.provider provider && match_wildcard t.model model
    then inject_at t.position (replace_vars t.content t.vars) ms
    else ms

unfoldable pub inject_all : String → String → List PromptTemplate → List Message → List Message
unfolding inject_template
inject_all provider model [] ms = ms
inject_all provider model (t ∷ ts) ms =
    inject_all provider model ts (inject_template provider model t ms)

-- Inject
unfoldable pub inject : PromptInjector → String → String → Request → Request
unfolding inject_all
inject pi provider model req = record req {
  messages = inject_all provider model pi.templates req.messages;
}

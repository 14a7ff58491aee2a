-- ===== src/Engine/Prompt/Extension.antt =====
-- internal/engine/prompt.go: a request that Validate accepts stays one when prompts are injected.
use ao_eo.Base.{
  ◌≡◌, ◌≢◌, inl, inr, ◌&&◌, String, List, [], ◌∷◌, ◌++◌, Option, none, some, Bool-cases, str_eq,
}
use ao_eo.Core.Types.{Message, Request, validate}
use ao_eo.Core.Types.Validity.{MessageOk, MessagesOk, NoSystem, Conversation, validate-nil}
use ao_eo.Engine.Prompt.{
  PromptTemplate, PromptInjector, match_wildcard, replace_vars, with_role, prepend_first,
  append_last, or_else, inject_system, inject_prepend_user, inject_append_user, inject_at,
  inject_template, inject_all, inject,
}
use ao_eo.Engine.Prompt.Alike.{
  LacksRole, Outcome, prepend_first-Outcome, append_last-Outcome, AllAlike-Conversation,
  LacksRole-NoSystem,
}

role_Ok : (role content : String) → role ≢ "" → content ≢ "" → MessageOk (with_role role content)
role_Ok role content r c = (r, inl c)

system_first :
    (content : String) (ms : List Message)
    → content ≢ ""
    → LacksRole "system" ms
    → Conversation ms
    → Conversation (with_role "system" content ∷ ms)
system_first content [] c l h = absurd h
system_first content (m ∷ ms) c l h =
    (role_Ok "system" content (λ e. cc) c, (h.0, h.1), LacksRole-NoSystem (m ∷ ms) l)

MessagesOk-snoc :
    (ms : List Message) (m : Message) → MessagesOk ms → MessageOk m → MessagesOk (ms ++ m ∷ [])
MessagesOk-snoc [] m h k = (k, tt)
MessagesOk-snoc (x ∷ xs) m h k = (h.0, MessagesOk-snoc xs m h.1 k)

NoSystem-snoc :
    (ms : List Message) (m : Message) → NoSystem ms → m.role ≢ "system" → NoSystem (ms ++ m ∷ [])
NoSystem-snoc [] m h k = (k, tt)
NoSystem-snoc (x ∷ xs) m h k = (h.0, NoSystem-snoc xs m h.1 k)

user_last :
    (content : String) (ms : List Message)
    → content ≢ ""
    → Conversation ms
    → Conversation (ms ++ with_role "user" content ∷ [])
user_last content [] c h = absurd h
user_last content (m ∷ ms) c h = (
  h.0,
  MessagesOk-snoc ms _ h.1 (role_Ok "user" content (λ e. cc) c),
  NoSystem-snoc ms _ h.2 (λ e. cc),
)

or_else-Conversation :
    (role : String) (ms other : List Message) (o : Option (List Message))
    → Outcome role ms o
    → (LacksRole role ms → Conversation other)
    → Conversation ms
    → Conversation (or_else o other)
or_else-Conversation role ms other none h k v = k h
or_else-Conversation role ms other (some ms') h k v = AllAlike-Conversation ms ms' h v

inject_at-Conversation :
    (position content : String) (ms : List Message)
    → content ≢ ""
    → Conversation ms
    → Conversation (inject_at position content ms)
unfolding inject_at inject_system inject_prepend_user inject_append_user
inject_at-Conversation position content ms c v =
    let system =
      or_else-Conversation "system" ms _ (prepend_first "system" content ms)
        (prepend_first-Outcome "system" content ms) (λ l. system_first content ms c l v) v in
    let user = user_last content ms c v in
    elim (Bool-cases (str_eq position "system")) [
      | inl e ↦ rw e system
      | inr e ↦ elim (Bool-cases (str_eq position "prepend_user")) [
        | inl f ↦
            rw (e, f)
              (or_else-Conversation "user" ms _ (prepend_first "user" content ms)
                (prepend_first-Outcome "user" content ms) (λ l. user) v)
        | inr f ↦ elim (Bool-cases (str_eq position "append_user")) [
          | inl g ↦
              rw (e, f, g)
                (or_else-Conversation "user" ms _ (append_last "user" content ms)
                  (append_last-Outcome "user" content ms) (λ l. user) v)
          | inr g ↦ rw (e, f, g) system
        ]
      ]
    ]

-- No template is empty once its variables are filled in.
abbrev pub Filled : List PromptTemplate → Type 0
Filled [] = Unit {0}
Filled (t ∷ ts) = (replace_vars t.content t.vars ≢ "") × Filled ts

inject_all-Conversation :
    (provider model : String) (ts : List PromptTemplate) (ms : List Message)
    → Filled ts
    → Conversation ms
    → Conversation (inject_all provider model ts ms)
unfolding inject_all inject_template
inject_all-Conversation provider model [] ms c v = v
inject_all-Conversation provider model (t ∷ ts) ms c v =
    elim (Bool-cases (match_wildcard t.provider provider && match_wildcard t.model model)) [
      | inr miss ↦ rw miss (inject_all-Conversation provider model ts ms c.1 v)
      | inl hit ↦ rw hit (
          inject_all-Conversation provider model ts _ c.1
            (inject_at-Conversation t.position (replace_vars t.content t.vars) ms c.0 v))
    ]

-- A request that Validate accepts is one that it accepts after Inject, for any templates in any
-- positions and any provider and model, if no template is empty with its variables filled in: an
-- injected system message comes first and is the only one.
pub inject-validate :
    (pi : PromptInjector) (provider model : String) (req : Request)
    → Filled pi.templates
    → validate req ≡ []
    → validate (inject pi provider model req) ≡ []
unfolding inject
inject-validate pi provider model req filled accepted =
    let v = (validate-nil req).0 accepted in
    (validate-nil (inject pi provider model req)).1 (record {
      conversation =
          inject_all-Conversation provider model pi.templates req.messages filled v.conversation;
      temperature = v.temperature;
      top_p = v.top_p;
      max_tokens = v.max_tokens;
    })

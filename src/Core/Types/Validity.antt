-- ===== src/Core/Types/Validity.antt =====
-- core/types.go: which requests Validate accepts.
use ao_eo.Base.{
  ℕ, suc, ◌+◌, ◌≡◌, ◌≢◌, refl, ◌↔◌, ◌⊎◌, inl, inr, String, Bool, true, false, ◌||◌, List, [], ◌∷◌,
  ◌++◌, length, arith, ltb, ◌==◌, str_eq, eq_iff, pos, ◌≤ℤ◌, is_negative, Bool-cases,
}
use ao_eo.Core.Float32.{below, above, whole, NanOrWithin, NanOrWithin-iff}
use ao_eo.Core.Types.{
  Message, Request, Issue, lacks_content, message_issues, messages_issues, system_count, validate,
  issue_if, no_messages, many_systems, bad_temperature, bad_top_p, bad_max_tokens,
}

-- A message with a role, and with content unless the role may do without.
abbrev pub MessageOk : Message → Type 0
MessageOk m = (m.role ≢ "") × ((m.content ≢ "") ⊎ ((m.role ≡ "assistant") ⊎ (m.role ≡ "tool")))

abbrev pub MessagesOk : List Message → Type 0
MessagesOk [] = Unit {0}
MessagesOk (m ∷ ms) = MessageOk m × MessagesOk ms

abbrev pub NoSystem : List Message → Type 0
NoSystem [] = Unit {0}
NoSystem (m ∷ ms) = (m.role ≢ "system") × NoSystem ms

-- At least one message, every one well formed, and none but the first a system message.
abbrev pub Conversation : List Message → Type 0
Conversation [] = ⊥
Conversation (m ∷ ms) = MessageOk m × MessagesOk ms × NoSystem ms

pub record Valid (req : Request) : Type 0 where
  pub conversation : Conversation req.messages
  pub temperature : NanOrWithin (whole 2) req.temperature
  pub top_p : NanOrWithin (whole 1) req.top_p
  pub max_tokens : pos 0 ≤ℤ req.max_tokens

append-eq-nil : {A : Type 0} (xs ys : List A) → (xs ++ ys ≡ []) ↔ ((xs ≡ []) × (ys ≡ []))
append-eq-nil [] ys = (λ h. (refl, h), λ h. h.1)
append-eq-nil (x ∷ xs) ys = (λ h. cc, λ h. cc h.0)

issue_if-nil : (b : Bool) (i : Issue) → (issue_if b i ≡ []) ↔ (b ≡ false)
issue_if-nil true i = (λ h. cc, λ h. cc)
issue_if-nil false i = (λ h. refl, λ h. refl)

equal : {s t : String} → str_eq s t ≡ true → s ≡ t
equal h = (eq_iff _ _).0 h

differ : {s t : String} → str_eq s t ≡ false → s ≢ t
differ h e = absurd (cc (h, (eq_iff _ _).1 e))

message_issues-nil :
    (i : ℕ) (m : Message)
    → (message_issues i m ≡ []) ↔ (MessageOk m × ((i ≡ 0) ⊎ (m.role ≢ "system")))
unfolding message_issues lacks_content
message_issues-nil i m = ground (
  arith,
  eq_iff m.role "",
  eq_iff m.content "",
  eq_iff m.role "assistant",
  eq_iff m.role "tool",
  eq_iff m.role "system",
)

-- Past the first message, a conversation has no system message, so there is at most one in all.
system_count-none : (ms : List Message) → NoSystem ms → system_count ms ≡ 0
unfolding system_count
system_count-none [] h = refl
system_count-none (m ∷ ms) h = elim (Bool-cases (str_eq m.role "system")) [
  | inl e ↦ absurd (h.0 (equal e))
  | inr e ↦ rw e (system_count-none ms h.1)
]

messages_issues-nil :
    (i : ℕ) (ms : List Message) → (messages_issues (suc i) ms ≡ []) ↔ (MessagesOk ms × NoSystem ms)
unfolding messages_issues
messages_issues-nil i [] = (λ h. (tt, tt), λ h. refl)
messages_issues-nil i (m ∷ ms) =
    let both = append-eq-nil (message_issues (suc i) m) (messages_issues (suc i + 1) ms) in
    let first = message_issues-nil (suc i) m in
    let rest = messages_issues-nil (suc i) ms in ground (arith, both, first, rest)

Conversation-nil :
    (ms : List Message)
    → ((issue_if (length ms == 0) no_messages ≡ [])
        × (messages_issues 0 ms ≡ [])
        × (issue_if (ltb 1 (system_count ms)) (many_systems (system_count ms)) ≡ []))
      ↔ Conversation ms
unfolding messages_issues system_count
Conversation-nil [] = (λ h. absurd (cc h.0), λ h. absurd h)
Conversation-nil (m ∷ ms) =
    let both = append-eq-nil (message_issues 0 m) (messages_issues 1 ms) in
    let first = message_issues-nil 0 m in
    let rest = messages_issues-nil 0 ms in
    let none_late : NoSystem ms → system_count ms ≡ 0 = system_count-none ms in
    ground (arith, both, first, rest, none_late)

abbrev Ranges : Request → Type 0
Ranges req =
    NanOrWithin (whole 2) req.temperature
    × NanOrWithin (whole 1) req.top_p
    × (pos 0 ≤ℤ req.max_tokens)

Ranges-nil :
    (req : Request)
    → ((issue_if (below req.temperature (pos 0) || above req.temperature (whole 2)) bad_temperature
          ≡ [])
        × (issue_if (below req.top_p (pos 0) || above req.top_p (whole 1)) bad_top_p ≡ [])
        × (issue_if (is_negative req.max_tokens) bad_max_tokens ≡ []))
      ↔ Ranges req
Ranges-nil req =
    let t =
      issue_if-nil (below req.temperature (pos 0) || above req.temperature (whole 2))
        bad_temperature in
    let p = issue_if-nil (below req.top_p (pos 0) || above req.top_p (whole 1)) bad_top_p in
    let t' = NanOrWithin-iff (whole 2) req.temperature in
    let p' = NanOrWithin-iff (whole 1) req.top_p in
    let m = issue_if-nil (is_negative req.max_tokens) bad_max_tokens in
    let m' : (is_negative req.max_tokens ≡ false) ↔ (pos 0 ≤ℤ req.max_tokens) = ground arith in
    (
      λ h. (t'.0 (t.0 h.0), p'.0 (p.0 h.1), m'.0 (m.0 h.2)),
      λ r. (t.1 (t'.1 r.0), p.1 (p'.1 r.1), m.1 (m'.1 r.2)),
    )

append6-eq-nil :
    {a b c d e f : List Issue} {P Q : Type 0}
    → ((a ≡ []) × (b ≡ []) × (c ≡ [])) ↔ P
    → ((d ≡ []) × (e ≡ []) × (f ≡ [])) ↔ Q
    → (a ++ (b ++ (c ++ (d ++ (e ++ f)))) ≡ []) ↔ (P × Q)
append6-eq-nil {a} {b} {c} {d} {e} {f} {P} {Q} p q = ground (
  arith,
  append-eq-nil a (b ++ (c ++ (d ++ (e ++ f)))),
  append-eq-nil b (c ++ (d ++ (e ++ f))),
  append-eq-nil c (d ++ (e ++ f)),
  append-eq-nil d (e ++ f),
  append-eq-nil e f,
)

-- Validate reports nothing exactly for a conversation of well-formed messages, none but the first a
-- system message, with a temperature that is NaN or from 0 to 2, a top_p that is NaN or from 0 to 1,
-- and max_tokens of at least 0. NaN passes, since it compares as false; that there is at most one
-- system message follows from the rule on the first message.
pub validate-nil : (req : Request) → (validate req ≡ []) ↔ Valid req
unfolding validate
validate-nil req =
    let all = append6-eq-nil (Conversation-nil req.messages) (Ranges-nil req) in
    (
      λ h.
          let v = all.0 h in
          record { conversation = v.0; temperature = v.1.0; top_p = v.1.1; max_tokens = v.1.2 },
      λ v. all.1 (v.conversation, (v.temperature, v.top_p, v.max_tokens)),
    )

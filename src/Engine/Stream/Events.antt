-- ===== src/Engine/Stream/Events.antt =====
-- internal/engine/stream.go: ParseSSE reads the events of a text.
use Prim.Native.Char.{code}
use mathlib.Core.List.{append-nil}
use ao_eo.Base.{
  ◌^◌, ◌<◌, ◌≡◌, ◌≢◌, refl, ap, ◌∙◌, Bool, true, false, String, List, [], ◌∷◌, ◌++◌, arith,
  Bool-cases, inl, inr, ltb, ◌==◌, str_eq, eq_iff, append, has, is_prefix, byte_len,
}
use ao_eo.Engine.Stream.{data_of, emit, parse_sse}
use ao_eo.Engine.Stream.Lines.{split_lines, drop_cr, scan, parse_text}

-- A line of an event stream: the content of an event, or another line, such as a comment, a field of
-- another name or the empty line. It ends with CR LF or with LF.
pub data Written : Type 0 where
  event other : Bool → String → Written

abbrev pub line_of : Written → String
line_of (event cr d) = append "data: " d
line_of (other cr t) = t

abbrev pub ends_in_cr : Written → Bool
ends_in_cr (event cr d) = cr
ends_in_cr (other cr t) = cr

-- The line with its carriage return
abbrev pub raw : Bool → String → String
raw true l = append l "\r"
raw false l = l

-- The text of the lines, with more text behind
unfoldable pub body : List Written → String → String
body [] rest = rest
body (x ∷ xs) rest = append (raw (ends_in_cr x) (line_of x)) (append "\n" (body xs rest))

-- The contents of the events
unfoldable pub events : List Written → List String
events [] = []
events (event cr d ∷ xs) = d ∷ events xs
events (other cr t ∷ xs) = events xs

-- The content of an event is not the end mark, and another line does not begin like an event.
abbrev pub OfItsKind : Written → Type 0
OfItsKind (event cr d) = d ≢ "[DONE]"
OfItsKind (other cr t) = is_prefix "data: " t ≡ false

-- A line without line breaks in it that fits into the buffer of the scanner
abbrev pub Fit : Written → Type 0
Fit x =
    (has "\n" (line_of x) ≡ false)
    × (has "\r" (line_of x) ≡ false)
    × (byte_len (raw (ends_in_cr x) (line_of x)) < 2 ^ 20)

abbrev pub WellWritten : List Written → Type 0
WellWritten [] = Unit {0}
WellWritten (x ∷ xs) = OfItsKind x × Fit x × WellWritten xs

split_lines-append :
    (l s : String) → has "\n" l ≡ false → split_lines (append l (append "\n" s)) ≡ l ∷ split_lines s
unfolding split_lines has
split_lines-append String.[] s h = refl
split_lines-append (String.◌∷◌ c l) s h =
    let other_one : (code c == 10) ≡ false = ground arith in
    let later : has "\n" l ≡ false = ground arith in
    rw (other_one, split_lines-append l s later) refl

has-append_cr : (l : String) → has "\n" l ≡ false → has "\n" (append l "\r") ≡ false
unfolding has
has-append_cr String.[] h = refl
has-append_cr (String.◌∷◌ c l) h = ground (arith, has-append_cr l)

has-raw : (cr : Bool) (l : String) → has "\n" l ≡ false → has "\n" (raw cr l) ≡ false
has-raw true l h = has-append_cr l h
has-raw false l h = h

drop_cr-append : (l : String) → drop_cr (append l "\r") ≡ l
unfolding drop_cr
drop_cr-append String.[] = refl
drop_cr-append (String.◌∷◌ c String.[]) = refl
drop_cr-append (String.◌∷◌ c (String.◌∷◌ d l)) = ap (String.◌∷◌ c) (drop_cr-append (String.◌∷◌ d l))

drop_cr-none : (l : String) → has "\r" l ≡ false → drop_cr l ≡ l
unfolding drop_cr has
drop_cr-none String.[] h = refl
drop_cr-none (String.◌∷◌ c String.[]) h =
    let other_one : (code c == 13) ≡ false = ground arith in rw other_one refl
drop_cr-none (String.◌∷◌ c (String.◌∷◌ d l)) h =
    let later : has "\r" (String.◌∷◌ d l) ≡ false = ground arith in
    ap (String.◌∷◌ c) (drop_cr-none (String.◌∷◌ d l) later)

drop_cr-raw : (cr : Bool) (l : String) → has "\r" l ≡ false → drop_cr (raw cr l) ≡ l
drop_cr-raw true l h = drop_cr-append l
drop_cr-raw false l h = drop_cr-none l h

-- One line that fits, and what is read behind it
parse_text-line :
    (x : Written) (s : String)
    → Fit x
    → parse_text (append (raw (ends_in_cr x) (line_of x)) (append "\n" s))
      ≡ emit (data_of (line_of x)) true (parse_text s)
unfolding parse_text
parse_text-line x s fit =
    let l = raw (ends_in_cr x) (line_of x) in
    let fits : ltb (byte_len l) (2 ^ 20) ≡ true = ground arith in
    rw
      (
        split_lines-append l s (has-raw (ends_in_cr x) (line_of x) fit.0),
        scan,
        fits,
        drop_cr-raw (ends_in_cr x) (line_of x) fit.1,
        parse_sse,
      )
      refl

not_done : (d : String) → d ≢ "[DONE]" → str_eq d "[DONE]" ≡ false
not_done d h = elim (Bool-cases (str_eq d "[DONE]")) [
  | inl e ↦ absurd (h ((eq_iff d "[DONE]").0 e))
  | inr e ↦ e
]

emit-event :
    (d : String) (rest : List String)
    → d ≢ "[DONE]"
    → emit (data_of (append "data: " d)) true rest ≡ d ∷ rest
unfolding data_of
emit-event d rest h = rw (not_done d h) refl

emit-other :
    (t : String) (rest : List String)
    → is_prefix "data: " t ≡ false
    → emit (data_of t) true rest ≡ rest
unfolding data_of
emit-other t rest h = rw h refl

-- What the lines give stands in front of what is read behind them.
parse_text-behind :
    (xs : List Written) (rest : String)
    → WellWritten xs
    → parse_text (body xs rest) ≡ events xs ++ parse_text rest
unfolding body events
parse_text-behind [] rest h = refl
parse_text-behind (event cr d ∷ xs) rest h =
    parse_text-line (event cr d) (body xs rest) h.1
    ∙ emit-event d _ h.0
    ∙ ap (◌∷◌ d) (parse_text-behind xs rest h.2)
parse_text-behind (other cr t ∷ xs) rest h =
    parse_text-line (other cr t) (body xs rest) h.1
    ∙ emit-other t _ h.0
    ∙ parse_text-behind xs rest h.2

-- The line of the end mark
abbrev pub end_mark : Bool → Written
end_mark cr = event cr "[DONE]"

end_mark-Fit : (cr : Bool) → Fit (end_mark cr)
unfolding has
end_mark-Fit true = (refl, refl, omega arith)
end_mark-Fit false = (refl, refl, omega arith)

parse_text-end_mark : (cr : Bool) (s : String) → parse_text (body (end_mark cr ∷ []) s) ≡ []
unfolding body
parse_text-end_mark cr s =
    parse_text-line (end_mark cr) s (end_mark-Fit cr) ∙ (unfold data_of in refl)

-- From a text of lines, ParseSSE reads the contents of exactly the events, in order: it skips the
-- lines that do not begin with `data: `, and goes on with the text behind the lines, up to its end
-- or to the line of the end mark, behind which it reads nothing. Each line ends with LF or CR LF, has
-- no other line break and less than 1024*1024 bytes before its LF, and no content is the end mark.
pub parse_text-body :
    (xs : List Written) (rest : String) (cr : Bool)
    → WellWritten xs
    → (parse_text (body xs rest) ≡ events xs ++ parse_text rest)
      × (parse_text (body xs "") ≡ events xs)
      × (parse_text (body xs (body (end_mark cr ∷ []) rest)) ≡ events xs)
unfolding parse_text split_lines
parse_text-body xs rest cr h = (
  parse_text-behind xs rest h,
  parse_text-behind xs "" h ∙ append-nil (events xs),
  parse_text-behind xs (body (end_mark cr ∷ []) rest) h
      ∙ ap (◌++◌ (events xs)) (parse_text-end_mark cr rest)
      ∙ append-nil (events xs),
)

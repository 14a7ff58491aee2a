-- ===== src/Engine/Stream/Lines.antt =====
-- internal/engine/stream.go: ParseSSE on a text, with the lines that bufio.Scanner gives. The context
-- of ParseSSE is never done, and its chunks are taken; the reader gives the text without an error.
use Prim.Native.Char.{code}
use ao_eo.Base.{
  ◌^◌, String, Bool, true, List, [], ◌∷◌, map, Option, none, some, ltb, ◌==◌, if◌then◌else◌,
  byte_len, push_char,
}
use ao_eo.Engine.Stream.{Line, parse_sse}

-- The text between line feeds; what stands behind the last one counts unless it is empty.
unfoldable pub split_lines : String → List String
split_lines String.[] = []
split_lines (String.◌∷◌ c s) =
    let rest = split_lines s in if code c == 10 then "" ∷ rest else push_char c rest

-- A carriage return at the end of a line is dropped.
unfoldable pub drop_cr : String → String
drop_cr String.[] = ""
drop_cr (String.◌∷◌ c String.[]) = if code c == 13 then "" else String.◌∷◌ c ""
drop_cr (String.◌∷◌ c (String.◌∷◌ d s)) = String.◌∷◌ c (drop_cr (String.◌∷◌ d s))

-- What the scanner gives, and its error: the buffer holds 1024*1024 bytes, and a line that fills it
-- is too long.
unfoldable pub scan : List String → List String × Option String
unfolding drop_cr
scan [] = ([], none)
scan (l ∷ ls) =
    let rest = scan ls in
    if ltb (byte_len l) (2 ^ 20)
    then (drop_cr l ∷ rest.0, rest.1)
    else ([], some "bufio.Scanner: token too long")

-- A line of a live context whose chunk is taken
abbrev pub plain_line : String → Line
plain_line s = record { text = s; live = true; taken = true }

abbrev pub with_taken : Option String → Option (String × Bool)
with_taken none = none
with_taken (some e) = some (e, true)

abbrev pub parse_scanned : List String × Option String → List String
parse_scanned (ls, e) = parse_sse (map plain_line ls) (with_taken e)

-- ParseSSE: the contents of the chunks
unfoldable pub parse_text : String → List String
unfolding parse_sse split_lines scan
parse_text s = parse_scanned (scan (split_lines s))

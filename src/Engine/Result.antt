-- ===== src/Engine/Result.antt =====
-- internal/engine/result.go: the search for the first JSON object or array in a text. A text is a
-- list of bytes; the two scans differ only in their brackets.
pub mod Brackets
pub mod Found
pub mod Exact
mod Tests
use ao_eo.Base.{
  ℕ, zero, suc, ◌+◌, ◌-◌, Bool, true, false, List, [], ◌∷◌, ◌++◌, Option, none, some, ◌==◌,
  if◌then◌else◌,
}

abbrev pub quote : ℕ
quote = b'"'

abbrev pub backslash : ℕ
backslash = b'\\'

-- inString and escapeNext; the second holds only in a string.
pub data Mode : Type 0 where
  plain in_string escaped : Mode

-- The local variables after a byte, and whether it closes the last bracket
pub record Scan : Type 0 where
  pub depth : ℕ
  pub mode : Mode
  pub closes : Bool

abbrev pub go_on : ℕ → Mode → Scan
go_on depth mode = record { depth = depth; mode = mode; closes = false }

module _ (opening closing : ℕ) where
  -- The body of the loop
  unfoldable pub scan_byte : ℕ → Mode → ℕ → Scan
  scan_byte depth escaped x = go_on depth in_string
  scan_byte depth in_string x =
      if x == backslash
      then go_on depth escaped
      else if x == quote
      then go_on depth plain
      else go_on depth in_string
  scan_byte depth plain x =
      if x == quote
      then go_on depth in_string
      else if x == opening
      then go_on (depth + 1) plain
      else if x == closing
      then record { depth = depth - 1; mode = plain; closes = (depth - 1) == 0 }
      else go_on depth plain

  abbrev pub prepend : List ℕ → Option (List ℕ) → Option (List ℕ)
  prepend xs none = none
  prepend xs (some ys) = some (xs ++ ys)

  -- The bytes up to the one that closes the last bracket; `none` is end < 0.
  unfoldable pub scan : ℕ → Mode → List ℕ → Option (List ℕ)
  unfolding scan_byte
  scan depth mode [] = none
  scan depth mode (x ∷ xs) =
      let next = scan_byte depth mode x in
      let rest = scan next.depth next.mode xs in
      if next.closes then some (x ∷ []) else prepend (x ∷ []) rest

  -- content[strings.Index(content, opening):]
  unfoldable pub from_first : List ℕ → Option (List ℕ)
  from_first [] = none
  from_first (x ∷ xs) = if x == opening then some (x ∷ xs) else from_first xs

  abbrev pub scan_from : Option (List ℕ) → Option (List ℕ)
  scan_from none = none
  scan_from (some xs) = scan 0 plain xs

  -- The scan that findFirstJSONObject and findFirstJSONArray share; `none` is "".
  unfoldable pub find_first : List ℕ → Option (List ℕ)
  unfolding from_first scan
  find_first content = scan_from (from_first content)

unfoldable pub find_first_json_object : List ℕ → Option (List ℕ)
unfolding find_first
find_first_json_object content = find_first b'{' b'}' content

unfoldable pub find_first_json_array : List ℕ → Option (List ℕ)
unfolding find_first
find_first_json_array content = find_first b'[' b']' content

-- ===== src/Json.antt =====
-- `JSON.parse` on a text that begins with a quotation mark, as src/server/device-metadata.ts and
-- src/server/config.ts use it: the value of a string literal, or a SyntaxError.
use connexin.Prelude.{
  ℕ, zero, suc, ◌+◌, ◌-◌, ◌*◌, ◌&&◌, [], ◌∷◌, ◌++◌, Option, none, some, ◌==◌, ltb, leb,
  if◌then◌else◌,
}
use mathlib.Core.Option
use connexin.Utf8.{Text}

-- Where the reader stands: in the literal, behind a backslash, in the digits behind `\u` with how
-- many are missing and what they say so far, or behind the literal.
pub data JsonMode : Type 0 where
  plain escaped closed : JsonMode
  hex : ℕ → ℕ → JsonMode

abbrev pub escape_of : ℕ → Option ℕ
escape_of c =
    if c == b'"'
    then some b'"'
    else if c == 0x5c
    then some 0x5c
    else if c == b'/'
    then some b'/'
    else if c == b'b'
    then some 0x08
    else if c == b'f'
    then some 0x0c
    else if c == b'n'
    then some 0x0a
    else if c == b'r'
    then some 0x0d
    else if c == b't'
    then some 0x09
    else none

abbrev pub hex_digit : ℕ → Option ℕ
hex_digit c =
    if leb b'0' c && leb c b'9'
    then some (c - b'0')
    else if leb b'a' c && leb c b'f'
    then some ((c - b'a') + 10)
    else if leb b'A' c && leb c b'F'
    then some ((c - b'A') + 10)
    else none

-- The next mode, with the units that are read.
abbrev pub json_step : JsonMode → ℕ → Option (JsonMode × Text)
json_step plain c =
    if c == b'"'
    then some (closed, [])
    else if c == 0x5c
    then some (escaped, [])
    else if ltb c 0x20
    then none
    else some (plain, c ∷ [])
json_step escaped c =
    if c == b'u' then some (hex 3 0, []) else Option.map (λ d. (plain, d ∷ [])) (escape_of c)
json_step (hex zero value) c = Option.map (λ d. (plain, (value * 16 + d) ∷ [])) (hex_digit c)
json_step (hex (suc more) value) c = Option.map (λ d. (hex more (value * 16 + d), [])) (hex_digit c)
json_step closed c = none

unfoldable pub json_scan : JsonMode → Text → Option Text
json_scan closed [] = some []
json_scan plain [] = none
json_scan escaped [] = none
json_scan (hex more value) [] = none
json_scan mode (c ∷ rest) = elim (json_step mode c) [
  | none ↦ none
  | some (next, read) ↦ Option.map (λ tail. read ++ tail) (json_scan next rest)
]

-- The literal, whose quotation mark is the first unit.
unfoldable pub parse_json_string : Text → Option Text
unfolding json_scan
parse_json_string [] = none
parse_json_string (c ∷ rest) = if c == b'"' then json_scan plain rest else none

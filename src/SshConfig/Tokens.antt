-- ===== src/SshConfig/Tokens.antt =====
-- The lines and tokens of src/server/ssh-config.ts.
use connexin.Prelude.{
  ℕ, Bool, true, ◌&&◌, ◌||◌, List, [], ◌∷◌, ◌++◌, map, Option, none, some, ◌==◌, if◌then◌else◌,
  has_unit, is_space, starts_with, trim_text, text_eq, codes, ascii_lower,
}
use connexin.Utf8.{Text}

-- `toLowerCase`, as far as a comparison with an ASCII word can tell: U+212A, the Kelvin sign, is
-- the only other unit whose lower case is an ASCII letter.
unfoldable pub to_lower_case : Text → Text
to_lower_case text = map (λ c. if c == 0x212a then b'k' else ascii_lower c) text

unfoldable pub push_unit : ℕ → List Text → List Text
push_unit c [] = (c ∷ []) ∷ []
push_unit c (line ∷ lines) = (c ∷ line) ∷ lines

-- `source.split(/\r?\n/)`.
unfoldable pub split_lines : Text → List Text
unfolding push_unit
split_lines [] = [] ∷ []
split_lines (c ∷ []) = if c == 0x0a then [] ∷ [] ∷ [] else (c ∷ []) ∷ []
split_lines (c ∷ d ∷ rest) =
    let after_unit = split_lines (d ∷ rest) in
    let after_pair = split_lines rest in
    if c == 0x0a
    then [] ∷ after_unit
    else if (c == 0x0d) && (d == 0x0a)
    then [] ∷ after_pair
    else push_unit c after_unit

abbrev pub push_token : Text → List Text → List Text
push_token [] tokens = tokens
push_token (c ∷ current) tokens = (c ∷ current) ∷ tokens

-- The loop of `tokenizeOpenSshLine`, with the open quotation mark and the current token.
unfoldable pub tokenize_from : Option ℕ → Text → Text → List Text
tokenize_from quote current [] = push_token current []
tokenize_from none current (c ∷ rest) =
    let opened = tokenize_from (some c) current rest in
    let ended = tokenize_from none [] rest in
    let longer = tokenize_from none (current ++ c ∷ []) rest in
    if c == b'#'
    then push_token current []
    else if (c == b'"') || (c == 0x27)
    then opened
    else if is_space c
    then push_token current ended
    else longer
tokenize_from (some q) current (c ∷ rest) =
    let closed = tokenize_from none current rest in
    let longer = tokenize_from (some q) (current ++ c ∷ []) rest in
    if c == q then closed else longer

-- The text before the first `=`, and the one behind it.
abbrev pub before_equals : Text → Text
before_equals [] = []
before_equals (c ∷ rest) = if c == b'=' then [] else c ∷ before_equals rest

abbrev pub after_equals : Text → Text
after_equals [] = []
after_equals (c ∷ rest) = if c == b'=' then rest else after_equals rest

abbrev split_parts : Text → Text → List Text → Text → List Text
split_parts [] value rest token = token ∷ rest
split_parts (c ∷ keyword) value rest token = (c ∷ keyword) ∷ push_token value rest

-- `keyword=value` as the first token.
abbrev split_keyword : List Text → List Text
split_keyword [] = []
split_keyword (token ∷ rest) =
    if has_unit b'=' token
    then split_parts (before_equals token) (after_equals token) rest token
    else token ∷ rest

-- A lone `=` as the second token.
abbrev drop_equals : List Text → List Text
drop_equals [] = []
drop_equals (keyword ∷ []) = keyword ∷ []
drop_equals (keyword ∷ second ∷ rest) =
    if text_eq second (codes "=") then keyword ∷ rest else keyword ∷ second ∷ rest

unfoldable pub tokenize_open_ssh_line : Text → List Text
unfolding tokenize_from
tokenize_open_ssh_line line = drop_equals (split_keyword (tokenize_from none [] line))

abbrev pub is_skipped : Text → Bool
is_skipped [] = true
is_skipped (c ∷ rest) = starts_with (c ∷ rest) (b'#' ∷ [])

-- `lineTokens`; a line that is skipped has no tokens.
unfoldable pub line_tokens : Text → Option (List Text)
unfolding tokenize_open_ssh_line
line_tokens line =
    if is_skipped (trim_text line) then none else some (tokenize_open_ssh_line (trim_text line))

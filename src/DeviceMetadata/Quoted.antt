-- ===== src/DeviceMetadata/Quoted.antt =====
-- Writing a text as a string literal of connexin.toml, and what the parser of
-- src/server/device-metadata.ts makes of it.
use connexin.Prelude.{
  ℕ, suc, ◌+◌, ◌*◌, ◌/◌, ◌%◌, ◌<◌, ◌≡◌, refl, sym, ap, subst, ◌∙◌, true, false, ◌||◌, [], ◌∷◌, ◌++◌,
  Option, none, some, inl, inr, arith, append_assoc, ◌==◌, ==_iff, ltb, ltb→lt, if◌then◌else◌,
  Bool-cases, codes, All, All-append,
}
use mathlib.Core.Option
use connexin.Utf8.{Text}
use connexin.Json.{
  JsonMode, plain, escaped, hex, hex_digit, json_step, json_scan, parse_json_string,
}
use connexin.Toml.{strip_comment_from}

abbrev hex_char : ℕ → ℕ
hex_char d = if ltb d 10 then d + b'0' else d + 87

-- A quotation mark or a backslash behind a backslash, a control character as `\u00` and two digits.
abbrev quote_unit : ℕ → Text
quote_unit c =
    if (c == b'"') || (c == 0x5c)
    then 0x5c ∷ c ∷ []
    else if ltb c 0x20
    then 0x5c ∷ b'u' ∷ b'0' ∷ b'0' ∷ hex_char (c / 16) ∷ hex_char (c % 16) ∷ []
    else c ∷ []

-- The three ways in which a unit is written.
data IsWritten (c : ℕ) : Text → Type 0 where
  quotation : c ≡ b'"' → IsWritten c (0x5c ∷ b'"' ∷ [])
  backslash : c ≡ 0x5c → IsWritten c (0x5c ∷ 0x5c ∷ [])
  control :
      c < 0x20
      → IsWritten c (0x5c ∷ b'u' ∷ b'0' ∷ b'0' ∷ hex_char (c / 16) ∷ hex_char (c % 16) ∷ [])
  printable : (c == b'"') ≡ false → (c == 0x5c) ≡ false → ltb c 0x20 ≡ false → IsWritten c (c ∷ [])

quote_unit-IsWritten : (c : ℕ) → IsWritten c (quote_unit c)
quote_unit-IsWritten c = elim (Bool-cases (c == b'"')) [
  | inl quote ↦
      subst (λ x. IsWritten x (quote_unit x)) (sym ((==_iff c b'"').0 quote)) (quotation refl)
  | inr no_quote ↦ elim (Bool-cases (c == 0x5c)) [
    | inl slash ↦
        subst (λ x. IsWritten x (quote_unit x)) (sym ((==_iff c 0x5c).0 slash)) (backslash refl)
    | inr no_slash ↦ elim (Bool-cases (ltb c 0x20)) [
      | inl small ↦ rw (no_quote, no_slash, small) (control (ltb→lt c 0x20 small))
      | inr large ↦ rw (no_quote, no_slash, large) (printable no_quote no_slash large)
    ]
  ]
]

abbrev pub quote_units : Text → Text
quote_units [] = []
quote_units (c ∷ text) = quote_unit c ++ quote_units text

abbrev pub quoted : Text → Text
quoted text = b'"' ∷ (quote_units text ++ codes "\"")

hex_digit-hex_char : (d : ℕ) → d < 16 → hex_digit (hex_char d) ≡ some d
hex_digit-hex_char d h = ground arith

map_none : (o : Option Text) → Option.map (λ t. [] ++ t) o ≡ o
map_none none = refl
map_none (some t) = refl

scan_last_digit :
    (value d c : ℕ) (rest : Text)
    → hex_digit c ≡ some d
    → json_scan (hex 0 value) (c ∷ rest)
      ≡ Option.map (λ t. (value * 16 + d) ∷ t) (json_scan plain rest)
unfolding json_scan
scan_last_digit value d c rest h =
    ap
      (λ (o : Option ℕ).
        elim (Option.map {B = JsonMode × Text} (λ d. (plain, (value * 16 + d) ∷ [])) o)
          as (λ _. Option Text) [
            | none ↦ none
            | some (next, read) ↦ Option.map (λ tail. read ++ tail) (json_scan next rest)
          ])
      h

scan_digit :
    (more value d c : ℕ) (rest : Text)
    → hex_digit c ≡ some d
    → json_scan (hex (suc more) value) (c ∷ rest) ≡ json_scan (hex more (value * 16 + d)) rest
unfolding json_scan
scan_digit more value d c rest h =
    ap
      (λ (o : Option ℕ).
        elim (Option.map {B = JsonMode × Text} (λ d. (hex more (value * 16 + d), [])) o)
          as (λ _. Option Text) [
            | none ↦ none
            | some (next, read) ↦ Option.map (λ tail. read ++ tail) (json_scan next rest)
          ])
      h
    ∙ map_none (json_scan (hex more (value * 16 + d)) rest)

scan_control :
    (c : ℕ) (rest : Text)
    → c < 0x20
    → json_scan plain (0x5c ∷ b'u' ∷ b'0' ∷ b'0' ∷ hex_char (c / 16) ∷ hex_char (c % 16) ∷ rest)
      ≡ Option.map (λ t. c ∷ t) (json_scan plain rest)
unfolding json_scan
scan_control c rest h =
    let tens : c / 16 < 16 = omega (arith, h) in
    let ones : c % 16 < 16 = omega (arith, h) in
    let sum : (0 * 16 + c / 16) * 16 + c % 16 ≡ c = omega arith in
    let digits = hex_char (c / 16) ∷ hex_char (c % 16) ∷ rest in
    map_none (json_scan escaped (b'u' ∷ b'0' ∷ b'0' ∷ digits))
    ∙ map_none (json_scan (hex 3 0) (b'0' ∷ b'0' ∷ digits))
    ∙ scan_digit 2 0 0 b'0' (b'0' ∷ digits) refl
    ∙ scan_digit 1 0 0 b'0' digits refl
    ∙ scan_digit 0 0 (c / 16) (hex_char (c / 16)) (hex_char (c % 16) ∷ rest)
        (hex_digit-hex_char (c / 16) tens)
    ∙ scan_last_digit (0 * 16 + c / 16) (c % 16) (hex_char (c % 16)) rest
        (hex_digit-hex_char (c % 16) ones)
    ∙ ap (λ n. Option.map (λ t. n ∷ t) (json_scan plain rest)) sum

scan_printable :
    (c : ℕ) (rest : Text)
    → json_step plain c ≡ some (plain, c ∷ [])
    → json_scan plain (c ∷ rest) ≡ Option.map (λ t. c ∷ t) (json_scan plain rest)
unfolding json_scan
scan_printable c rest h =
    ap
      (λ (o : Option (JsonMode × Text)). elim o as (λ _. Option Text) [
        | none ↦ none
        | some (next, read) ↦ Option.map (λ tail. read ++ tail) (json_scan next rest)
      ])
      h

json_scan-IsWritten :
    (c : ℕ) (q rest : Text)
    → IsWritten c q
    → json_scan plain (q ++ rest) ≡ Option.map (λ t. c ∷ t) (json_scan plain rest)
unfolding json_scan
json_scan-IsWritten c _ rest (quotation e) =
    subst
      (λ x. json_scan plain (0x5c ∷ b'"' ∷ rest) ≡ Option.map (λ t. x ∷ t) (json_scan plain rest))
      (sym e) (map_none _)
json_scan-IsWritten c _ rest (backslash e) =
    subst
      (λ x. json_scan plain (0x5c ∷ 0x5c ∷ rest) ≡ Option.map (λ t. x ∷ t) (json_scan plain rest))
      (sym e) (map_none _)
json_scan-IsWritten c _ rest (control h) = scan_control c rest h
json_scan-IsWritten c _ rest (printable a b d) = scan_printable c rest (rw (a, b, d) refl)

json_scan-quote_units : (text : Text) → json_scan plain (quote_units text ++ codes "\"") ≡ some text
unfolding json_scan
json_scan-quote_units [] = refl
json_scan-quote_units (c ∷ text) =
    ap (json_scan plain) (append_assoc (quote_unit c) (quote_units text) (codes "\""))
    ∙ json_scan-IsWritten c (quote_unit c) (quote_units text ++ codes "\"") (quote_unit-IsWritten c)
    ∙ ap (Option.map (λ t. c ∷ t)) (json_scan-quote_units text)

pub parse_json_string-quoted : (text : Text) → parse_json_string (quoted text) ≡ some text
unfolding parse_json_string
parse_json_string-quoted text = json_scan-quote_units text

-- A quotation mark in a literal stands behind a backslash, so no comment begins in the literal.
strip_quoted_unit :
    (before c : ℕ) (rest : Text)
    → (c == b'"') ≡ false
    → strip_comment_from true before (c ∷ rest) ≡ c ∷ strip_comment_from true c rest
unfolding strip_comment_from
strip_quoted_unit before c rest h = rw (h) refl

hex_char-quote : (d : ℕ) → (hex_char d == b'"') ≡ false
hex_char-quote d = ground arith

strip_comment_from-IsWritten :
    (before c : ℕ) (q rest : Text)
    → ((b : ℕ) → strip_comment_from true b rest ≡ rest)
    → IsWritten c q
    → strip_comment_from true before (q ++ rest) ≡ q ++ rest
unfolding strip_comment_from
strip_comment_from-IsWritten before c _ rest h (quotation e) = ap (λ t. 0x5c ∷ b'"' ∷ t) (h b'"')
strip_comment_from-IsWritten before c _ rest h (backslash e) = ap (λ t. 0x5c ∷ 0x5c ∷ t) (h 0x5c)
strip_comment_from-IsWritten before c _ rest h (control small) =
    let first = hex_char (c / 16) in
    let second = hex_char (c % 16) in
    ap (λ t. 0x5c ∷ b'u' ∷ b'0' ∷ b'0' ∷ t)
      (strip_quoted_unit b'0' first (second ∷ rest) (hex_char-quote (c / 16))
        ∙ ap (◌∷◌ first) (
            strip_quoted_unit first second rest (hex_char-quote (c % 16))
            ∙ ap (◌∷◌ second) (h second)))
strip_comment_from-IsWritten before c _ rest h (printable a b d) = rw (a) (ap (◌∷◌ c) (h c))

pub strip_comment_from-quote_units :
    (before : ℕ) (text tail : Text)
    → ((b : ℕ) → strip_comment_from true b tail ≡ tail)
    → strip_comment_from true before (quote_units text ++ tail) ≡ quote_units text ++ tail
strip_comment_from-quote_units before [] tail h = h before
strip_comment_from-quote_units before (c ∷ text) tail h =
    ap (strip_comment_from true before) (append_assoc (quote_unit c) (quote_units text) tail)
    ∙ strip_comment_from-IsWritten before c (quote_unit c) (quote_units text ++ tail)
        (λ b. strip_comment_from-quote_units b text tail h) (quote_unit-IsWritten c)
    ∙ sym (append_assoc (quote_unit c) (quote_units text) tail)

-- No line ends in a literal.
abbrev pub InLine : ℕ → Type 0
InLine c = ((c == 0x0a) ≡ false) × ((c == 0x0d) ≡ false)

hex_char-InLine : (d : ℕ) → InLine (hex_char d)
hex_char-InLine d = (ground arith, ground arith)

IsWritten-InLine : (c : ℕ) (q : Text) → IsWritten c q → All InLine q
IsWritten-InLine c _ (quotation e) = ((refl, refl), ((refl, refl), tt))
IsWritten-InLine c _ (backslash e) = ((refl, refl), ((refl, refl), tt))
IsWritten-InLine c _ (control h) = (
  (refl, refl),
  (
    (refl, refl),
    ((refl, refl), ((refl, refl), (hex_char-InLine (c / 16), (hex_char-InLine (c % 16), tt)))),
  ),
)
IsWritten-InLine c _ (printable a b h) = ((ground arith, ground arith), tt)

pub quote_units-InLine : (text : Text) → All InLine (quote_units text)
quote_units-InLine [] = tt
quote_units-InLine (c ∷ text) =
    All-append InLine (quote_unit c) (quote_units text)
      (IsWritten-InLine c (quote_unit c) (quote_unit-IsWritten c)) (quote_units-InLine text)

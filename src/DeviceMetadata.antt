-- ===== src/DeviceMetadata.antt =====
-- `parseConnexinToml` of src/server/device-metadata.ts. `devices` is a `Map` in the order of
-- insertion; a `throw` is a value of `TomlError` with the line that it names.
pub mod Quoted
pub mod Lines
pub mod Entries
pub mod Rendered
pub mod Tables
pub mod RoundTrip
use connexin.Prelude.{
  ℕ, suc, ◌-◌, Bool, true, false, not, ◌&&◌, ◌||◌, List, [], ◌∷◌, ◌++◌, Option, none, some, ◌==◌,
  leb, if◌then◌else◌, any, codes, starts_with, ends_with, text_eq, trim_text, length, take, drop,
}
use connexin.Utf8.{Text}
use connexin.Json.{parse_json_string}
use connexin.Toml.{strip_comment, split_equals}
use connexin.SshConfig.Tokens.{split_lines}
use connexin.SessionManager.Session.{DeviceDanger, normal, caution, danger}
use connexin.SessionManager.Manager.{DeviceMetadata}

pub data TomlError : Type 0 where
  values_must_be_quoted invalid_literal invalid_device_table invalid_table : ℕ → TomlError
  expected_device expected_value : ℕ → TomlError
  bad_danger : TomlError
  unknown_key : ℕ → Text → TomlError

pub data TomlResult (A : Type 0) : Type 0 where
  parsed : A → TomlResult A
  rejected : TomlError → TomlResult A

infixl 5 ◌>>=◌ ◌>>◌
abbrev pub ◌>>=◌ : {A B : Type 0} → TomlResult A → (A → TomlResult B) → TomlResult B
parsed a >>= f = f a
rejected e >>= f = rejected e

abbrev pub ◌>>◌ : {A B : Type 0} → TomlResult A → TomlResult B → TomlResult B
m >> k = m >>= λ _. k

abbrev or_rejected : {A : Type 0} → TomlError → Option A → TomlResult A
or_rejected e none = rejected e
or_rejected e (some a) = parsed a

unfoldable pub parse_string_literal : Text → ℕ → TomlResult Text
unfolding parse_json_string
parse_string_literal raw line_number =
    let value = trim_text raw in
    if not (starts_with value (codes "\"")) || not (ends_with value (codes "\""))
    then rejected (values_must_be_quoted line_number)
    else or_rejected (invalid_literal line_number) (parse_json_string value)

-- [A-Za-z0-9_.-].
abbrev is_bare_unit : ℕ → Bool
is_bare_unit c =
    (leb b'A' c && leb c b'Z')
    || (leb b'a' c && leb c b'z')
    || (leb b'0' c && leb c b'9')
    || (c == b'_')
    || (c == b'.')
    || (c == b'-')

abbrev parse_alias : Text → ℕ → TomlResult (Option Text)
parse_alias alias line_number =
    if starts_with alias (codes "\"") && ends_with alias (codes "\"")
    then (do
      name ← or_rejected (invalid_device_table line_number) (parse_json_string alias)
      parsed (some name))
    else if not (text_eq alias []) && not (any (λ c. not (is_bare_unit c)) alias)
    then parsed (some alias)
    else rejected (invalid_device_table line_number)

-- The alias of a device table; `none` for any other header.
unfoldable pub parse_device_header : Text → ℕ → TomlResult (Option Text)
unfolding parse_json_string
parse_device_header raw line_number =
    let header = trim_text raw in
    let body = trim_text (drop 1 (take (length header - 1) header)) in
    if not (starts_with header (codes "[")) || not (ends_with header (codes "]"))
    then parsed none
    else if not (starts_with body (codes "devices."))
    then parsed none
    else parse_alias (trim_text (drop 8 body)) line_number

abbrev pub no_metadata : DeviceMetadata
no_metadata = record { label = none; group = none; danger = none; default_shell = none }

-- The `Map` of devices.
unfoldable pub has_device : Text → List (Text × DeviceMetadata) → Bool
has_device alias [] = false
has_device alias ((a, meta) ∷ rest) = text_eq a alias || has_device alias rest

-- The entry of a device, changed in place.
unfoldable pub update_device :
    Text
    → (DeviceMetadata → DeviceMetadata)
    → List (Text × DeviceMetadata)
    → List (Text × DeviceMetadata)
update_device alias f [] = []
update_device alias f ((a, meta) ∷ rest) =
    if text_eq a alias then (a, f meta) ∷ rest else (a, meta) ∷ update_device alias f rest

-- The variables of `parseConnexinToml`.
pub record TomlParse : Type 0 where
  pub devices : List (Text × DeviceMetadata)
  pub current_alias : Option Text
  pub in_runtime_table : Bool

abbrev danger_of : Text → TomlResult DeviceDanger
danger_of value =
    if text_eq value (codes "normal")
    then parsed normal
    else if text_eq value (codes "caution")
    then parsed caution
    else if text_eq value (codes "danger")
    then parsed danger
    else rejected bad_danger

-- What a key changes of the metadata.
unfoldable pub field_change : Text → Text → ℕ → TomlResult (DeviceMetadata → DeviceMetadata)
field_change key value line_number =
    if text_eq key (codes "label")
    then parsed (λ meta. record meta { label = some value })
    else if text_eq key (codes "group")
    then parsed (λ meta. record meta { group = some value })
    else if text_eq key (codes "default_shell")
    then parsed (λ meta. record meta { default_shell = some value })
    else if text_eq key (codes "danger")
    then (do level ← danger_of value; parsed (λ meta. record meta { danger = some level }))
    else rejected (unknown_key line_number key)

-- `!currentAlias`.
abbrev alias_or_rejected : ℕ → Option Text → TomlResult Text
alias_or_rejected line_number none = rejected (expected_device line_number)
alias_or_rejected line_number (some []) = rejected (expected_device line_number)
alias_or_rejected line_number (some (c ∷ alias)) = parsed (c ∷ alias)

unfoldable pub parse_entry : TomlParse → ℕ → Text → TomlResult TomlParse
unfolding split_equals parse_string_literal field_change update_device
parse_entry st line_number line = do
  alias ← alias_or_rejected line_number st.current_alias
  (key, raw) ← or_rejected (expected_value line_number) (split_equals line)
  value ← parse_string_literal raw line_number
  change ← field_change (trim_text key) value line_number
  parsed (record st { devices = update_device alias change st.devices })

abbrev pub open_device : TomlParse → Text → TomlParse
open_device st alias = record st {
  current_alias = some alias;
  in_runtime_table = false;
  devices =
      if has_device alias st.devices then st.devices else st.devices ++ (alias, no_metadata) ∷ [];
}

abbrev pub enter_header : TomlParse → ℕ → Option Text → TomlResult TomlParse
enter_header st line_number none = rejected (invalid_table line_number)
enter_header st line_number (some alias) = parsed (open_device st alias)

unfoldable pub parse_header : TomlParse → ℕ → Text → TomlResult TomlParse
unfolding parse_device_header has_device
parse_header st line_number line =
    if text_eq line (codes "[runtime]")
    then parsed (record st { current_alias = none; in_runtime_table = true })
    else (do alias ← parse_device_header line line_number; enter_header st line_number alias)

unfoldable pub parse_line : TomlParse → ℕ → Text → TomlResult TomlParse
unfolding strip_comment parse_header parse_entry
parse_line st line_number raw_line =
    let line = trim_text (strip_comment raw_line) in
    if text_eq line []
    then parsed st
    else if starts_with line (codes "[") && ends_with line (codes "]")
    then parse_header st line_number line
    else if st.in_runtime_table
    then parsed st
    else parse_entry st line_number line

unfoldable pub parse_all : TomlResult TomlParse → ℕ → List Text → TomlResult TomlParse
unfolding parse_line
parse_all (rejected e) line_number lines = rejected e
parse_all (parsed st) line_number [] = parsed st
parse_all (parsed st) line_number (line ∷ lines) =
    parse_all (parse_line st line_number line) (suc line_number) lines

abbrev pub new_toml_parse : TomlParse
new_toml_parse = record { devices = []; current_alias = none; in_runtime_table = false }

unfoldable pub parse_connexin_toml : Text → TomlResult (List (Text × DeviceMetadata))
unfolding parse_all split_lines
parse_connexin_toml source = do
  st ← parse_all (parsed new_toml_parse) 1 (split_lines source)
  parsed st.devices

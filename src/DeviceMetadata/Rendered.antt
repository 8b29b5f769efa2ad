-- ===== src/DeviceMetadata/Rendered.antt =====
-- Devices written as connexin.toml, for the parser of src/server/device-metadata.ts.
use connexin.Prelude.{
  ℕ, ◌≡◌, refl, ap, ◌∙◌, Bool, true, ◌||◌, List, [], ◌∷◌, ◌++◌, Option, none, some, ◌==◌, codes,
  All, All-append, and-eq-true, arith, not, ◌&&◌,
}
use connexin.Utf8.{Text}
use connexin.SshConfig.Tokens.{split_lines}
use connexin.SessionManager.Session.{DeviceDanger, normal, caution, danger}
use connexin.SessionManager.Manager.{DeviceMetadata}
use connexin.DeviceMetadata.Quoted.{InLine, quote_units, quoted, quote_units-InLine}
use connexin.DeviceMetadata.Lines.{split_lines-line}
use connexin.DeviceMetadata.Entries.{entry_line, header_line}

abbrev pub danger_text : DeviceDanger → Text
danger_text normal = codes "normal"
danger_text caution = codes "caution"
danger_text danger = codes "danger"

abbrev pub option_line : ℕ → Text → Option Text → List Text
option_line k key none = []
option_line k key (some value) = entry_line k key value ∷ []

abbrev pub danger_line : Option DeviceDanger → List Text
danger_line none = []
danger_line (some level) = entry_line b'd' (codes "anger") (danger_text level) ∷ []

-- A line for each field that is set.
abbrev pub field_lines : DeviceMetadata → List Text
field_lines meta =
    option_line b'l' (codes "abel") meta.label
    ++ (option_line b'g' (codes "roup") meta.group
        ++ (danger_line meta.danger ++ option_line b'd' (codes "efault_shell") meta.default_shell))

abbrev pub device_lines : Text → DeviceMetadata → List Text
device_lines alias meta = header_line alias ∷ field_lines meta

abbrev pub toml_lines : List (Text × DeviceMetadata) → List Text
toml_lines [] = []
toml_lines ((alias, meta) ∷ rest) = device_lines alias meta ++ toml_lines rest

abbrev pub join_lines : List Text → Text
join_lines [] = []
join_lines (line ∷ lines) = line ++ 0x0a ∷ join_lines lines

abbrev pub render_connexin_toml : List (Text × DeviceMetadata) → Text
render_connexin_toml devices = join_lines (toml_lines devices)

-- The test of `InLine` on a text.
abbrev are_in_line : Text → Bool
are_in_line [] = true
are_in_line (c ∷ text) = not ((c == 0x0a) || (c == 0x0d)) && are_in_line text

are_in_line-InLine : (text : Text) → are_in_line text ≡ true → All InLine text
are_in_line-InLine [] h = tt
are_in_line-InLine (c ∷ text) h =
    let (one, more) = and-eq-true (not ((c == 0x0a) || (c == 0x0d))) (are_in_line text) h in
    (unit one, are_in_line-InLine text more)
  where
    unit : not ((c == 0x0a) || (c == 0x0d)) ≡ true → InLine c
    unit h = (ground arith, ground arith)

quoted-InLine : (value : Text) → All InLine (quoted value)
quoted-InLine value = (
  (refl, refl),
  All-append InLine (quote_units value) (codes "\"") (quote_units-InLine value) ((refl, refl), tt),
)

entry-InLine :
    (k : ℕ) (key value : Text) → are_in_line (k ∷ key) ≡ true → All InLine (entry_line k key value)
entry-InLine k key value h =
    All-append InLine (k ∷ key) (b'=' ∷ quoted value) (are_in_line-InLine (k ∷ key) h)
      ((refl, refl), quoted-InLine value)

option-InLine :
    (k : ℕ) (key : Text) (o : Option Text)
    → are_in_line (k ∷ key) ≡ true
    → All (All InLine) (option_line k key o)
option-InLine k key none h = tt
option-InLine k key (some value) h = (entry-InLine k key value h, tt)

danger-InLine : (o : Option DeviceDanger) → All (All InLine) (danger_line o)
danger-InLine none = tt
danger-InLine (some level) = (entry-InLine b'd' (codes "anger") (danger_text level) refl, tt)

device-InLine : (alias : Text) (meta : DeviceMetadata) → All (All InLine) (device_lines alias meta)
device-InLine alias meta = (
  All-append InLine (codes "[devices.") (quoted alias ++ codes "]")
      (are_in_line-InLine (codes "[devices.") refl)
      (All-append InLine (quoted alias) (codes "]") (quoted-InLine alias) ((refl, refl), tt)),
  All-append (All InLine) (option_line b'l' (codes "abel") meta.label) _
      (option-InLine b'l' (codes "abel") meta.label refl)
      (All-append (All InLine) (option_line b'g' (codes "roup") meta.group) _
        (option-InLine b'g' (codes "roup") meta.group refl)
        (All-append (All InLine) (danger_line meta.danger) _ (danger-InLine meta.danger)
          (option-InLine b'd' (codes "efault_shell") meta.default_shell refl))),
)

toml_lines-InLine : (devices : List (Text × DeviceMetadata)) → All (All InLine) (toml_lines devices)
toml_lines-InLine [] = tt
toml_lines-InLine ((alias, meta) ∷ rest) =
    All-append (All InLine) (device_lines alias meta) (toml_lines rest) (device-InLine alias meta)
      (toml_lines-InLine rest)

split_lines-join_lines :
    (lines : List Text) → All (All InLine) lines → split_lines (join_lines lines) ≡ lines ++ [] ∷ []
unfolding split_lines
split_lines-join_lines [] h = refl
split_lines-join_lines (line ∷ lines) (h, hs) =
    split_lines-line line (join_lines lines) h ∙ ap (◌∷◌ line) (split_lines-join_lines lines hs)

pub split_lines-render_connexin_toml :
    (devices : List (Text × DeviceMetadata))
    → split_lines (render_connexin_toml devices) ≡ toml_lines devices ++ [] ∷ []
split_lines-render_connexin_toml devices =
    split_lines-join_lines (toml_lines devices) (toml_lines-InLine devices)

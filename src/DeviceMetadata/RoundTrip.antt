-- ===== src/DeviceMetadata/RoundTrip.antt =====
-- Writing devices as connexin.toml, and reading them back with `parseConnexinToml` of
-- src/server/device-metadata.ts.
use connexin.Prelude.{
  ℕ, ◌≡◌, refl, sym, ap, ◌∙◌, false, List, [], ◌∷◌, ◌++◌, append_assoc, append-nil,
}
use connexin.Utf8.{Text}
use connexin.SessionManager.Manager.{DeviceMetadata}
use connexin.DeviceMetadata.{
  parsed, ◌>>=◌, TomlParse, new_toml_parse, has_device, parse_line, parse_all, parse_connexin_toml,
}
use connexin.DeviceMetadata.Rendered.{
  toml_lines, device_lines, render_connexin_toml, split_lines-render_connexin_toml,
}
use connexin.DeviceMetadata.Tables.{in_table, device_lines_read}

-- The devices have names that are not empty and differ from each other and from those before.
abbrev pub AreNamed : (before devices : List (Text × DeviceMetadata)) → Type 0
AreNamed before [] = Unit
AreNamed before (([], meta) ∷ rest) = ⊥
AreNamed before ((c ∷ alias, meta) ∷ rest) =
    (has_device (c ∷ alias) before ≡ false) × AreNamed (before ++ (c ∷ alias, meta) ∷ []) rest

toml_lines_read :
    (devices before : List (Text × DeviceMetadata))
    → AreNamed before devices
    → (st : TomlParse) (n : ℕ) (rest : List Text) → st.devices ≡ before
    → (n' : ℕ) × ((st' : TomlParse) × ((st'.devices ≡ before ++ devices)
          × (parse_all (parsed st) n (toml_lines devices ++ rest)
              ≡ parse_all (parsed st') n' rest)))
toml_lines_read [] before h st n rest e = (n, (st, (e ∙ sym (append-nil before), refl)))
toml_lines_read (([], meta) ∷ devices) before h st n rest e = absurd h
toml_lines_read ((c ∷ alias, meta) ∷ devices) before (fresh, named) st n rest e =
    let (k, first) =
      device_lines_read before c alias fresh meta st n (toml_lines devices ++ rest) e in
    let (n', (st', (all, others))) =
      toml_lines_read devices (before ++ (c ∷ alias, meta) ∷ []) named
        (in_table before c alias fresh meta) k rest refl in
    (
      n',
      (
        st',
        (
          all ∙ append_assoc before ((c ∷ alias, meta) ∷ []) devices,
          ap (parse_all (parsed st) n)
                (append_assoc (device_lines (c ∷ alias) meta) (toml_lines devices) rest)
              ∙ first
              ∙ others,
        ),
      ),
    )

-- Devices with distinct aliases that are not empty are read back exactly from the connexin.toml
-- that lists each as a table `[devices."alias"]` with a line `key="value"` for each field that is
-- set, where a quotation mark, a backslash or a control character in a text is escaped as in JSON.
pub parse_connexin_toml-render_connexin_toml :
    (devices : List (Text × DeviceMetadata))
    → AreNamed [] devices
    → parse_connexin_toml (render_connexin_toml devices) ≡ parsed devices
unfolding parse_connexin_toml parse_all parse_line
parse_connexin_toml-render_connexin_toml devices h =
    let (n, (st, (all, read))) = toml_lines_read devices [] h new_toml_parse 1 ([] ∷ []) refl in
    ap (λ lines. parse_all (parsed new_toml_parse) 1 lines >>= λ st. parsed st.devices)
      (split_lines-render_connexin_toml devices)
    ∙ ap (λ r. r >>= λ st. parsed st.devices) read
    ∙ ap parsed all

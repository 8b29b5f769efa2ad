-- ===== src/DeviceMetadata/Entries.antt =====
-- What one line of a device table does in src/server/device-metadata.ts.
use connexin.Prelude.{
  ℕ, ◌-◌, ◌≡◌, refl, sym, ap, subst, ◌∙◌, Bool, true, false, not, ◌&&◌, [], ◌∷◌, ◌++◌, some,
  append_assoc, ◌==◌, if◌then◌else◌, codes, length, take, drop, is_space, trim_text, ends_with,
}
use connexin.Utf8.{Text}
use connexin.Toml.{strip_comment, strip_comment_from, split_equals}
use connexin.SessionManager.Manager.{DeviceMetadata}
use connexin.DeviceMetadata.{
  parsed, parse_string_literal, parse_device_header, field_change, TomlParse, parse_entry,
  parse_header, parse_line, open_device, update_device,
}
use connexin.DeviceMetadata.Quoted.{
  quote_units, quoted, parse_json_string-quoted, strip_comment_from-quote_units,
}
use connexin.DeviceMetadata.Lines.{trim_ends, ends_with-append, take-but_last}

trim-quoted : (value : Text) → trim_text (quoted value) ≡ quoted value
trim-quoted value = trim_ends b'"' b'"' (quote_units value) refl refl

ends_with-quoted : (value : Text) → ends_with (quoted value) (codes "\"") ≡ true
ends_with-quoted value = ends_with-append (b'"' ∷ quote_units value) (codes "\"")

parse_string_literal-quoted :
    (value : Text) (n : ℕ) → parse_string_literal (quoted value) n ≡ parsed value
unfolding parse_string_literal
parse_string_literal-quoted value n =
    rw (trim-quoted value, ends_with-quoted value, parse_json_string-quoted value) refl

pub strip-closing : (b : ℕ) → strip_comment_from true b (codes "\"") ≡ codes "\""
unfolding strip_comment_from
strip-closing b = kept (not (b == 0x5c))
  where
    kept :
        (now : Bool)
        → (if not (if now then false else true) && false then [] else codes "\"") ≡ codes "\""
    kept true = refl
    kept false = refl

strip-header_end : (b : ℕ) → strip_comment_from true b (codes "\"]") ≡ codes "\"]"
unfolding strip_comment_from
strip-header_end b = kept (not (b == 0x5c))
  where
    kept :
        (closes : Bool)
        → (if not (if closes then false else true) && false
            then []
            else b'"' ∷ strip_comment_from (if closes then false else true) b'"' (codes "]"))
          ≡ codes "\"]"
    kept true = refl
    kept false = refl

-- What the keys have in common.
pub record IsKey (k : ℕ) (key : Text) : Type 0 where
  pub uncommented :
      (text : Text)
      → strip_comment (k ∷ (key ++ b'=' ∷ b'"' ∷ text))
        ≡ k ∷ (key ++ b'=' ∷ b'"' ∷ strip_comment_from true b'"' text)
  pub no_space : is_space k ≡ false
  pub no_bracket : (k == b'[') ≡ false
  pub split : (text : Text) → split_equals (k ∷ (key ++ b'=' ∷ text)) ≡ some (k ∷ key, text)
  pub trimmed : trim_text (k ∷ key) ≡ k ∷ key

abbrev pub entry_line : ℕ → Text → Text → Text
entry_line k key value = k ∷ (key ++ b'=' ∷ quoted value)

module _ (k : ℕ) (key : Text) (is : IsKey k key) (value : Text) (n : ℕ) where
  strip-entry_line : strip_comment (entry_line k key value) ≡ entry_line k key value
  strip-entry_line =
      is.uncommented (quote_units value ++ codes "\"")
      ∙ ap (λ t. k ∷ (key ++ b'=' ∷ b'"' ∷ t))
          (strip_comment_from-quote_units b'"' value (codes "\"") strip-closing)

  trim-entry_line : trim_text (entry_line k key value) ≡ entry_line k key value
  trim-entry_line =
      subst (λ t. trim_text (k ∷ t) ≡ k ∷ t)
        (append_assoc key (b'=' ∷ b'"' ∷ quote_units value) (codes "\""))
        (trim_ends k b'"' (key ++ b'=' ∷ b'"' ∷ quote_units value) is.no_space refl)

  parse_entry-entry_line :
      (st : TomlParse) (c : ℕ) (alias : Text) (change : DeviceMetadata → DeviceMetadata)
      → st.current_alias ≡ some (c ∷ alias)
      → field_change (k ∷ key) value n ≡ parsed change
      → parse_entry st n (entry_line k key value)
        ≡ parsed (record st { devices = update_device (c ∷ alias) change st.devices })
  unfolding parse_entry
  parse_entry-entry_line st c alias change h f =
      rw (h, is.split (quoted value), parse_string_literal-quoted value n, is.trimmed, f) refl

  pub parse_line-entry_line :
      (st : TomlParse) (c : ℕ) (alias : Text) (change : DeviceMetadata → DeviceMetadata)
      → st.current_alias ≡ some (c ∷ alias)
      → st.in_runtime_table ≡ false
      → field_change (k ∷ key) value n ≡ parsed change
      → parse_line st n (entry_line k key value)
        ≡ parsed (record st { devices = update_device (c ∷ alias) change st.devices })
  unfolding parse_line
  parse_line-entry_line st c alias change h outside f =
      let entry = parse_entry st n (entry_line k key value) in
      rw (strip-entry_line, trim-entry_line, is.no_bracket)
        (ap (λ b. if b then parsed st else entry) outside
          ∙ parse_entry-entry_line st c alias change h f)

abbrev pub header_line : Text → Text
header_line alias = codes "[devices." ++ (quoted alias ++ codes "]")

module _ (alias : Text) (n : ℕ) where
  abbrev body : Text
  body = codes "devices." ++ quoted alias

  abbrev inside : Text
  inside = codes "evices.\"" ++ quote_units alias

  split_ends : header_line alias ≡ (b'[' ∷ body) ++ codes "]"
  split_ends = sym (append_assoc (codes "[devices.") (quoted alias) (codes "]"))

  trim-body : trim_text body ≡ body
  trim-body = trim_ends b'd' b'"' inside refl refl

  trim-header : trim_text (header_line alias) ≡ header_line alias
  trim-header = subst (λ t. trim_text t ≡ t) (sym split_ends) (trim_ends b'[' b']' body refl refl)

  strip-header : strip_comment (header_line alias) ≡ header_line alias
  unfolding strip_comment strip_comment_from
  strip-header =
      ap (λ t. codes "[devices.\"" ++ t)
        (ap (strip_comment_from true b'"')
            (append_assoc (quote_units alias) (codes "\"") (codes "]"))
          ∙ strip_comment_from-quote_units b'"' alias (codes "\"]") strip-header_end
          ∙ sym (append_assoc (quote_units alias) (codes "\"") (codes "]")))

  cut_body : drop 1 (take (length (header_line alias) - 1) (header_line alias)) ≡ body
  cut_body =
      subst (λ t. drop 1 (take (length t - 1) t) ≡ body) (sym split_ends)
        (ap (drop 1) (take-but_last (b'[' ∷ body) b']'))

  ends_with-header : ends_with (header_line alias) (codes "]") ≡ true
  ends_with-header =
      subst (λ t. ends_with t (codes "]") ≡ true) (sym split_ends)
        (ends_with-append (b'[' ∷ body) (codes "]"))

  parse_device_header-header : parse_device_header (header_line alias) n ≡ parsed (some alias)
  unfolding parse_device_header
  parse_device_header-header =
      rw
        (
          trim-header,
          ends_with-header,
          cut_body,
          trim-body,
          trim-quoted alias,
          ends_with-quoted alias,
          parse_json_string-quoted alias,
        )
        refl

  pub parse_line-header :
      (st : TomlParse) → parse_line st n (header_line alias) ≡ parsed (open_device st alias)
  unfolding parse_line parse_header
  parse_line-header st =
      rw (strip-header, trim-header, ends_with-header, parse_device_header-header) refl

-- ===== src/Settings/Runtime.antt =====
-- The `[runtime]` table of connexin.toml in src/server/config.ts.
use connexin.Prelude.{
  ℕ, suc, ◌-◌, Bool, true, false, not, ◌&&◌, ◌||◌, List, [], ◌∷◌, ◌++◌, map, Option, none, some,
  ◌==◌, leb, if◌then◌else◌, any, codes, has_text, starts_with, text_eq, trim_text,
}
use connexin.Utf8.{Text}
use connexin.Json.{parse_json_string}
use connexin.Toml.{strip_comment, split_equals}
use connexin.SshConfig.Tokens.{split_lines}
use connexin.Settings.Values.{
  Setting, ok, failed, ◌>>=◌, Env, env_get, invalid_runtime_key, bad_runtime_string,
  unknown_runtime_key, duplicate_runtime_key,
}

abbrev pub runtime_env_keys : List Text
runtime_env_keys =
    codes "CONNEXIN_MAX_SESSIONS"
    ∷ codes "CONNEXIN_MAX_DEVICE_LENGTH"
    ∷ codes "CONNEXIN_MAX_REASON_LENGTH"
    ∷ codes "CONNEXIN_MAX_SUGGESTED_COMMAND_LENGTH"
    ∷ codes "CONNEXIN_MAX_SCROLLBACK_BYTES"
    ∷ codes "CONNEXIN_MAX_INPUT_BYTES"
    ∷ codes "CONNEXIN_MAX_SUBMIT_BYTES"
    ∷ codes "CONNEXIN_MAX_WS_PAYLOAD_BYTES"
    ∷ codes "CONNEXIN_WS_BUFFERED_AMOUNT_LIMIT_BYTES"
    ∷ codes "CONNEXIN_MAX_SESSION_AGE_MS"
    ∷ codes "CONNEXIN_IDLE_GRACE_MS"
    ∷ codes "CONNEXIN_CLEANUP_INTERVAL_MS"
    ∷ codes "CONNEXIN_BRIDGE_HOST"
    ∷ codes "CONNEXIN_BRIDGE_PORT"
    ∷ codes "CONNEXIN_MAX_FILE_ENTRIES"
    ∷ codes "CONNEXIN_MAX_FILE_METADATA_BYTES"
    ∷ codes "CONNEXIN_MAX_FILE_PATH_BYTES"
    ∷ codes "CONNEXIN_MAX_FILE_COMPONENT_BYTES"
    ∷ codes "CONNEXIN_MAX_FILE_PATH_DEPTH"
    ∷ codes "CONNEXIN_MAX_FILE_QUEUED_OPERATIONS"
    ∷ codes "CONNEXIN_MAX_TRANSFER_BYTES"
    ∷ codes "CONNEXIN_MAX_EMBEDDED_DOWNLOAD_BYTES"
    ∷ codes "CONNEXIN_FILE_OPERATION_LEASE_TTL_MS"
    ∷ codes "CONNEXIN_MAX_FILE_OPERATION_LEASES"
    ∷ codes "CONNEXIN_FILE_METADATA_TIMEOUT_MS"
    ∷ codes "CONNEXIN_FILE_TRANSFER_MAX_DURATION_MS"
    ∷ codes "CONNEXIN_FILE_SHUTDOWN_TIMEOUT_MS"
    ∷ codes "CONNEXIN_REQUIRE_APP_HOST"
    ∷ codes "CONNEXIN_FILE_ROOT_CONFINEMENT_ENFORCED"
    ∷ []

abbrev string_or_bad : ℕ → Option Text → Setting Text
string_or_bad line_number none = failed (bad_runtime_string line_number)
string_or_bad line_number (some value) = ok value

unfoldable pub parse_runtime_scalar : Text → ℕ → Setting Text
unfolding parse_json_string
parse_runtime_scalar raw line_number =
    if not (starts_with raw (codes "\""))
    then ok raw
    else string_or_bad line_number (parse_json_string raw)

-- [a-z0-9_], and `toUpperCase` on such a unit.
abbrev pub is_key_unit : ℕ → Bool
is_key_unit c = (leb b'a' c && leb c b'z') || (leb b'0' c && leb c b'9') || (c == b'_')

abbrev pub upper : ℕ → ℕ
upper c = if leb b'a' c && leb c b'z' then c - 32 else c

-- The variables of `runtimeEnvFromConfig`.
pub record RuntimeParse : Type 0 where
  pub values : Env
  pub config_env_keys : List Text
  pub runtime : Bool

-- `if (values[envKey] === undefined) values[envKey] = value`.
abbrev pub put_default : Text → Text → Option Text → Env → Env
put_default key value none env = (key, value) ∷ env
put_default key value (some old) env = env

abbrev pub put_value : RuntimeParse → ℕ → Text → Text → Setting RuntimeParse
put_value st line_number env_key value =
    if not (has_text env_key runtime_env_keys)
    then failed (unknown_runtime_key line_number)
    else if has_text env_key st.config_env_keys
    then failed (duplicate_runtime_key line_number)
    else ok (record st {
      config_env_keys = env_key ∷ st.config_env_keys;
      values = put_default env_key value (env_get env_key st.values) st.values;
    })

unfoldable pub take_entry : RuntimeParse → ℕ → Text → Text → Setting RuntimeParse
unfolding parse_runtime_scalar env_get
take_entry st line_number key raw =
    if text_eq key [] || any (λ c. not (is_key_unit c)) key
    then failed (invalid_runtime_key key)
    else (do
      value ← parse_runtime_scalar raw line_number
      put_value st line_number (codes "CONNEXIN_" ++ map upper key) value)

abbrev pub take_pair : RuntimeParse → ℕ → Option (Text × Text) → Setting RuntimeParse
take_pair st line_number none = ok st
take_pair st line_number (some (key, value)) =
    take_entry st line_number (trim_text key) (trim_text value)

unfoldable pub take_line : RuntimeParse → ℕ → Text → Setting RuntimeParse
unfolding take_entry strip_comment split_equals
take_line st line_number raw_line =
    let line = trim_text (strip_comment raw_line) in
    if text_eq line []
    then ok st
    else if text_eq line (codes "[runtime]")
    then ok (record st { runtime = true })
    else if starts_with line (codes "[")
    then ok (record st { runtime = false })
    else if not st.runtime
    then ok st
    else take_pair st line_number (split_equals line)

unfoldable pub take_lines : Setting RuntimeParse → ℕ → List Text → Setting RuntimeParse
unfolding take_line
take_lines (failed e) line_number lines = failed e
take_lines (ok st) line_number [] = ok st
take_lines (ok st) line_number (line ∷ lines) =
    take_lines (take_line st line_number line) (suc line_number) lines

abbrev pub values_of : Setting RuntimeParse → Setting Env
values_of (failed e) = failed e
values_of (ok st) = ok st.values

-- `runtimeEnvFromConfig`; the source is `none` where the file does not exist.
unfoldable pub runtime_env_from_config : Env → Option Text → Setting Env
unfolding take_lines split_lines
runtime_env_from_config env none = ok env
runtime_env_from_config env (some source) = values_of (
    take_lines (ok (record { values = env; config_env_keys = []; runtime = false })) 1
      (split_lines source))

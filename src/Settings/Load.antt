-- ===== src/Settings/Load.antt =====
-- `loadRuntimeConfig` of src/server/config.ts. The numeric fields of a `RuntimeConfig` are a list by
-- their names, in the order in which the source reads them.
pub mod Sound
use connexin.Prelude.{
  ℕ, ◌*◌, Bool, true, false, not, ◌&&◌, List, [], ◌∷◌, ◌++◌, Option, none, some, if◌then◌else◌,
  codes, includes, text_eq, trim_text, length,
}
use connexin.Utf8.{Text}
use connexin.Numbers.{JsNumber}
use connexin.Settings.Values.{
  Setting, ok, failed, ◌>>=◌, ◌>>◌, origins_required, Env, env_get, boolean_from_env,
  number_from_env, port_from_env,
}
use connexin.Settings.Origins.{UrlParser, allowed_origins_from_env, optional_base_url}
use connexin.Settings.Runtime.{runtime_env_from_config}

pub data Limit : Type 0 where
  max_sessions max_device_length max_reason_length max_suggested_command_length : Limit
  max_scrollback_bytes max_input_bytes max_submit_bytes max_ws_payload_bytes : Limit
  ws_buffered_amount_limit_bytes max_session_age_ms idle_grace_ms cleanup_interval_ms : Limit
  max_file_entries max_file_metadata_bytes max_file_path_bytes max_file_component_bytes : Limit
  max_file_path_depth max_file_queued_operations max_transfer_bytes : Limit
  max_embedded_download_bytes file_operation_lease_ttl_ms max_file_operation_leases : Limit
  file_metadata_timeout_ms file_transfer_max_duration_ms file_shutdown_timeout_ms : Limit

abbrev pub key_of : Limit → Text
key_of max_sessions = codes "CONNEXIN_MAX_SESSIONS"
key_of max_device_length = codes "CONNEXIN_MAX_DEVICE_LENGTH"
key_of max_reason_length = codes "CONNEXIN_MAX_REASON_LENGTH"
key_of max_suggested_command_length = codes "CONNEXIN_MAX_SUGGESTED_COMMAND_LENGTH"
key_of max_scrollback_bytes = codes "CONNEXIN_MAX_SCROLLBACK_BYTES"
key_of max_input_bytes = codes "CONNEXIN_MAX_INPUT_BYTES"
key_of max_submit_bytes = codes "CONNEXIN_MAX_SUBMIT_BYTES"
key_of max_ws_payload_bytes = codes "CONNEXIN_MAX_WS_PAYLOAD_BYTES"
key_of ws_buffered_amount_limit_bytes = codes "CONNEXIN_WS_BUFFERED_AMOUNT_LIMIT_BYTES"
key_of max_session_age_ms = codes "CONNEXIN_MAX_SESSION_AGE_MS"
key_of idle_grace_ms = codes "CONNEXIN_IDLE_GRACE_MS"
key_of cleanup_interval_ms = codes "CONNEXIN_CLEANUP_INTERVAL_MS"
key_of max_file_entries = codes "CONNEXIN_MAX_FILE_ENTRIES"
key_of max_file_metadata_bytes = codes "CONNEXIN_MAX_FILE_METADATA_BYTES"
key_of max_file_path_bytes = codes "CONNEXIN_MAX_FILE_PATH_BYTES"
key_of max_file_component_bytes = codes "CONNEXIN_MAX_FILE_COMPONENT_BYTES"
key_of max_file_path_depth = codes "CONNEXIN_MAX_FILE_PATH_DEPTH"
key_of max_file_queued_operations = codes "CONNEXIN_MAX_FILE_QUEUED_OPERATIONS"
key_of max_transfer_bytes = codes "CONNEXIN_MAX_TRANSFER_BYTES"
key_of max_embedded_download_bytes = codes "CONNEXIN_MAX_EMBEDDED_DOWNLOAD_BYTES"
key_of file_operation_lease_ttl_ms = codes "CONNEXIN_FILE_OPERATION_LEASE_TTL_MS"
key_of max_file_operation_leases = codes "CONNEXIN_MAX_FILE_OPERATION_LEASES"
key_of file_metadata_timeout_ms = codes "CONNEXIN_FILE_METADATA_TIMEOUT_MS"
key_of file_transfer_max_duration_ms = codes "CONNEXIN_FILE_TRANSFER_MAX_DURATION_MS"
key_of file_shutdown_timeout_ms = codes "CONNEXIN_FILE_SHUTDOWN_TIMEOUT_MS"

-- `DEFAULTS`.
abbrev pub default_of : Limit → ℕ
default_of max_sessions = 4
default_of max_device_length = 128
default_of max_reason_length = 1000
default_of max_suggested_command_length = 4000
default_of max_scrollback_bytes = 128000
default_of max_input_bytes = 16384
default_of max_submit_bytes = 64000
default_of max_ws_payload_bytes = 16384
default_of ws_buffered_amount_limit_bytes = 1000000
default_of max_session_age_ms = 1800000
default_of idle_grace_ms = 300000
default_of cleanup_interval_ms = 30000
default_of max_file_entries = 1000
default_of max_file_metadata_bytes = 524288
default_of max_file_path_bytes = 4096
default_of max_file_component_bytes = 255
default_of max_file_path_depth = 64
default_of max_file_queued_operations = 8
default_of max_transfer_bytes = 536870912
default_of max_embedded_download_bytes = 8388608
default_of file_operation_lease_ttl_ms = 60000
default_of max_file_operation_leases = 16
default_of file_metadata_timeout_ms = 30000
default_of file_transfer_max_duration_ms = 1800000
default_of file_shutdown_timeout_ms = 5000

-- The limits before the port, those between the port and the two flags, and the last ones.
abbrev pub session_limits : List Limit
session_limits =
    max_sessions ∷ max_device_length ∷ max_reason_length ∷ max_suggested_command_length
    ∷ max_scrollback_bytes ∷ max_input_bytes ∷ max_submit_bytes ∷ max_ws_payload_bytes
    ∷ ws_buffered_amount_limit_bytes ∷ max_session_age_ms ∷ idle_grace_ms ∷ cleanup_interval_ms ∷ []

abbrev pub file_limits : List Limit
file_limits =
    max_file_entries ∷ max_file_metadata_bytes ∷ max_file_path_bytes ∷ max_file_component_bytes
    ∷ max_file_path_depth ∷ max_file_queued_operations ∷ max_transfer_bytes
    ∷ max_embedded_download_bytes ∷ []

abbrev pub lease_limits : List Limit
lease_limits =
    file_operation_lease_ttl_ms ∷ max_file_operation_leases ∷ file_metadata_timeout_ms
    ∷ file_transfer_max_duration_ms ∷ file_shutdown_timeout_ms ∷ []

pub record SettingsWorld : Type 0 where
  pub number : Text → JsNumber
  pub url : UrlParser
  -- The text of connexin.toml, if the file exists.
  pub config_source : Option Text
  -- `env.HOME ?? process.cwd()` joined to the two default paths, and the directory of the module
  -- resolved to the helper.
  pub default_ssh_config : Text
  pub default_connexin_config : Text
  pub default_sftp_helper : Text

pub record RuntimeConfig : Type 0 where
  pub limits : List (Limit × ℕ)
  pub ssh_config_path : Text
  pub connexin_config_path : Text
  pub audit_log_path : Option Text
  pub http_token : Option Text
  pub allowed_origins : List Text
  pub bridge_host : Text
  pub bridge_port : ℕ
  pub bridge_public_url : Option Text
  pub sftp_helper_path : Text
  pub require_app_host : Bool
  pub file_root_confinement_enforced : Bool

unfoldable pub load_limits : (Text → JsNumber) → Env → List Limit → Setting (List (Limit × ℕ))
unfolding number_from_env
load_limits number env [] = ok []
load_limits number env (limit ∷ rest) = do
  n ← number_from_env number env (key_of limit) (default_of limit)
  others ← load_limits number env rest
  ok ((limit, n) ∷ others)

-- `value ?? fallback`.
abbrev or_default : Text → Option Text → Text
or_default fallback none = fallback
or_default fallback (some t) = t

-- `value?.trim() || fallback`.
abbrev trimmed_or : Text → Text → Text
trimmed_or fallback [] = fallback
trimmed_or fallback (c ∷ rest) = c ∷ rest

abbrev trimmed_default : Text → Option Text → Text
trimmed_default fallback none = fallback
trimmed_default fallback (some t) = trimmed_or fallback (trim_text t)

-- Whether a public URL comes without any origin.
abbrev pub lacks_origins : Option Text → List Text → Bool
lacks_origins none origins = false
lacks_origins (some u) [] = true
lacks_origins (some u) (o ∷ rest) = false

abbrev pub origins_checked : Bool → Setting Bool
origins_checked true = failed origins_required
origins_checked false = ok true

-- The part behind the reading of the environment.
unfoldable pub load_from_env : SettingsWorld → Env → Setting RuntimeConfig
unfolding load_limits allowed_origins_from_env optional_base_url port_from_env boolean_from_env
    env_get
load_from_env w env = do
  origins ← allowed_origins_from_env w.url env
  public_url ← optional_base_url w.url env (codes "CONNEXIN_BRIDGE_PUBLIC_URL")
  _ ← origins_checked (lacks_origins public_url origins)
  sessions ← load_limits w.number env session_limits
  port ← port_from_env w.number env (codes "CONNEXIN_BRIDGE_PORT") 0
  files ← load_limits w.number env file_limits
  app_host ← boolean_from_env env (codes "CONNEXIN_REQUIRE_APP_HOST") true
  enforced ← boolean_from_env env (codes "CONNEXIN_FILE_ROOT_CONFINEMENT_ENFORCED") false
  leases ← load_limits w.number env lease_limits
  ok (record {
    limits = sessions ++ (files ++ leases);
    ssh_config_path = or_default w.default_ssh_config (env_get (codes "CONNEXIN_SSH_CONFIG") env);
    connexin_config_path =
        or_default w.default_connexin_config (env_get (codes "CONNEXIN_CONFIG") env);
    audit_log_path = env_get (codes "CONNEXIN_AUDIT_LOG") env;
    http_token = env_get (codes "CONNEXIN_HTTP_TOKEN") env;
    allowed_origins = origins;
    bridge_host = trimmed_default (codes "127.0.0.1") (env_get (codes "CONNEXIN_BRIDGE_HOST") env);
    bridge_port = port;
    bridge_public_url = public_url;
    sftp_helper_path =
        trimmed_default w.default_sftp_helper (env_get (codes "CONNEXIN_SFTP_HELPER") env);
    require_app_host = app_host;
    file_root_confinement_enforced = enforced;
  })

unfoldable pub load_runtime_config : SettingsWorld → Env → Setting RuntimeConfig
unfolding runtime_env_from_config load_from_env
load_runtime_config w source_env = do
  env ← runtime_env_from_config source_env w.config_source
  load_from_env w env

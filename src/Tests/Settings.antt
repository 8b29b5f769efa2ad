-- ===== src/Tests/Settings.antt =====
-- The theorems on the configuration at concrete environments.
use connexin.Prelude.{
  ◌≡◌, refl, true, false, List, [], ◌∷◌, map, none, some, codes, text_eq, has_text, if◌then◌else◌,
  ℕ, ◌++◌, drop,
}
use connexin.Utf8.{Text}
use connexin.Numbers.{JsNumber, natural, no_safe_integer}
use connexin.Settings.Values.{Env, env_get, ok}
use connexin.Settings.Origins.{Url, UrlParser, is_origin_allowed}
use connexin.Settings.Runtime.{runtime_env_from_config}
use connexin.Settings.Load.{
  SettingsWorld, RuntimeConfig, load_runtime_config, Limit, default_of, max_sessions,
  session_limits, file_limits, lease_limits,
}
use connexin.Settings.Load.Sound.{IsSound, load_runtime_config-IsSound}
use connexin.Settings.Allowed.{IsAllowedBy, is_origin_allowed-IsAllowedBy}
use connexin.Settings.Precedence.{runtime_env_from_config_keeps}

abbrev app_url : Url
app_url = record {
  protocol = codes "https:";
  origin = codes "https://app.example.com";
  host = codes "app.example.com";
  hostname = codes "app.example.com";
  pathname = codes "/";
  bare = codes "https://app.example.com/";
}

abbrev one_url : UrlParser
one_url text = if text_eq text (codes "https://app.example.com") then some app_url else none

abbrev entries : List Text
entries = codes "https://other.example" ∷ codes "https://*.example.com" ∷ []

allowed : is_origin_allowed one_url entries (codes "https://app.example.com") ≡ true
unfolding is_origin_allowed
allowed = refl

is_origin_allowed-IsAllowedBy_example :
    (u : Url) × (one_url (codes "https://app.example.com") ≡ some u)
    × ((entry : Text) × (has_text entry entries ≡ true) × IsAllowedBy u entry)
is_origin_allowed-IsAllowedBy_example =
    is_origin_allowed-IsAllowedBy one_url entries (codes "https://app.example.com") allowed

abbrev two : Text → JsNumber
two text = if text_eq text (codes "2") then natural 2 else no_safe_integer

abbrev settings_world : SettingsWorld
settings_world = record {
  number = two;
  url = one_url;
  config_source = some (codes "[runtime]\nmax_sessions = 2\nbridge_host = \"::1\" # local\n");
  default_ssh_config = codes "/home/u/.ssh/config";
  default_connexin_config = codes "/home/u/.connexin/connexin.toml";
  default_sftp_helper = codes "/opt/sftp-helper";
}

abbrev host_env : Env
host_env =
    (codes "CONNEXIN_BRIDGE_HOST", codes "127.0.0.1")
    ∷ (codes "CONNEXIN_BRIDGE_PUBLIC_URL", codes "https://app.example.com")
    ∷ (codes "CONNEXIN_ALLOWED_ORIGINS", codes " https://app.example.com ,")
    ∷ []

abbrev full_env : Env
full_env = (codes "CONNEXIN_MAX_SESSIONS", codes "2") ∷ host_env

merged : runtime_env_from_config host_env settings_world.config_source ≡ ok full_env
unfolding runtime_env_from_config
merged = refl

host_given : env_get (codes "CONNEXIN_BRIDGE_HOST") host_env ≡ some (codes "127.0.0.1")
unfolding env_get
host_given = refl

runtime_env_from_config_keeps_example :
    env_get (codes "CONNEXIN_BRIDGE_HOST") full_env ≡ some (codes "127.0.0.1")
runtime_env_from_config_keeps_example =
    runtime_env_from_config_keeps (codes "CONNEXIN_BRIDGE_HOST") (codes "127.0.0.1") host_env
      settings_world.config_source full_env host_given merged

abbrev default_limits : List Limit → List (Limit × ℕ)
default_limits limits = map (λ limit. (limit, default_of limit)) limits

abbrev loaded_config : RuntimeConfig
loaded_config = record {
  limits =
      (max_sessions, 2) ∷ default_limits (drop 1 (session_limits ++ (file_limits ++ lease_limits)));
  ssh_config_path = codes "/home/u/.ssh/config";
  connexin_config_path = codes "/home/u/.connexin/connexin.toml";
  audit_log_path = none;
  http_token = none;
  allowed_origins = codes "https://app.example.com" ∷ [];
  bridge_host = codes "127.0.0.1";
  bridge_port = 0;
  bridge_public_url = some (codes "https://app.example.com");
  sftp_helper_path = codes "/opt/sftp-helper";
  require_app_host = true;
  file_root_confinement_enforced = false;
}

loads : load_runtime_config settings_world host_env ≡ ok loaded_config
unfolding load_runtime_config
loads = refl

load_runtime_config-IsSound_example :
    (env : Env) × (runtime_env_from_config host_env settings_world.config_source ≡ ok env)
    × IsSound env loaded_config
load_runtime_config-IsSound_example =
    load_runtime_config-IsSound settings_world host_env loaded_config loads

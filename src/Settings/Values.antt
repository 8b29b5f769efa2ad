-- ===== src/Settings/Values.antt =====
-- Reading one setting of src/server/config.ts.
use connexin.Prelude.{
  ℕ, Bool, true, false, List, [], ◌∷◌, Option, none, some, ◌==◌, ltb, if◌then◌else◌, codes,
  has_text, text_eq, trim_text,
}
use connexin.Utf8.{Text}
use connexin.Numbers.{JsNumber, natural, minus_suc, no_safe_integer}
use connexin.SshConfig.Tokens.{to_lower_case}

-- The errors that the file throws, with the key or line that they name.
pub data SettingsError : Type 0 where
  must_be_boolean must_be_positive_integer must_be_port : Text → SettingsError
  must_be_valid_origin must_be_http_origin stray_wildcard : Text → SettingsError
  invalid_url : SettingsError
  must_be_http_url must_use_https must_not_have_path : Text → SettingsError
  origins_required : SettingsError
  invalid_runtime_key : Text → SettingsError
  bad_runtime_string unknown_runtime_key duplicate_runtime_key : ℕ → SettingsError

pub data Setting (A : Type 0) : Type 0 where
  ok : A → Setting A
  failed : SettingsError → Setting A

infixl 5 ◌>>=◌ ◌>>◌
abbrev pub ◌>>=◌ : {A B : Type 0} → Setting A → (A → Setting B) → Setting B
ok a >>= f = f a
failed e >>= f = failed e

abbrev pub ◌>>◌ : {A B : Type 0} → Setting A → Setting B → Setting B
m >> k = m >>= λ _. k

-- `process.env`, as the list of its properties.
abbrev pub Env : Type 0
Env = List (Text × Text)

unfoldable pub env_get : Text → Env → Option Text
env_get key [] = none
env_get key ((k, value) ∷ rest) = if text_eq k key then some value else env_get key rest

-- `raw === undefined || raw.trim() === ""`, and the text otherwise.
abbrev pub non_blank : Option Text → Option Text
non_blank none = none
non_blank (some raw) = if text_eq (trim_text raw) [] then none else some raw

abbrev boolean_of : Text → Text → Setting Bool
boolean_of key word =
    if has_text word (codes "0" ∷ codes "false" ∷ codes "no" ∷ codes "off" ∷ [])
    then ok false
    else if has_text word (codes "1" ∷ codes "true" ∷ codes "yes" ∷ codes "on" ∷ [])
    then ok true
    else failed (must_be_boolean key)

abbrev boolean_or : Text → Bool → Option Text → Setting Bool
boolean_or key fallback none = ok fallback
boolean_or key fallback (some raw) = boolean_of key (to_lower_case (trim_text raw))

unfoldable pub boolean_from_env : Env → Text → Bool → Setting Bool
unfolding env_get to_lower_case
boolean_from_env env key fallback = boolean_or key fallback (non_blank (env_get key env))

-- `!Number.isSafeInteger(parsed) || parsed <= 0`.
abbrev pub positive_of : Text → JsNumber → Setting ℕ
positive_of key (natural n) = if n == 0 then failed (must_be_positive_integer key) else ok n
positive_of key (minus_suc n) = failed (must_be_positive_integer key)
positive_of key no_safe_integer = failed (must_be_positive_integer key)

abbrev pub number_or : (Text → JsNumber) → Text → ℕ → Option Text → Setting ℕ
number_or number key fallback none = ok fallback
number_or number key fallback (some raw) = positive_of key (number raw)

unfoldable pub number_from_env : (Text → JsNumber) → Env → Text → ℕ → Setting ℕ
unfolding env_get
number_from_env number env key fallback =
    number_or number key fallback (non_blank (env_get key env))

-- `!Number.isInteger(parsed) || parsed < 0 || parsed > 65_535`; no port is an unsafe integer.
abbrev pub port_of : Text → JsNumber → Setting ℕ
port_of key (natural n) = if ltb 65535 n then failed (must_be_port key) else ok n
port_of key (minus_suc n) = failed (must_be_port key)
port_of key no_safe_integer = failed (must_be_port key)

abbrev pub port_or : (Text → JsNumber) → Text → ℕ → Option Text → Setting ℕ
port_or number key fallback none = ok fallback
port_or number key fallback (some raw) = port_of key (number raw)

unfoldable pub port_from_env : (Text → JsNumber) → Env → Text → ℕ → Setting ℕ
unfolding env_get
port_from_env number env key fallback = port_or number key fallback (non_blank (env_get key env))

unfoldable pub http_port_from_env : (Text → JsNumber) → Env → Setting ℕ
unfolding port_from_env
http_port_from_env number env = port_from_env number env (codes "CONNEXIN_HTTP_PORT") 0

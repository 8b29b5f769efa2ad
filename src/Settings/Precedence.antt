-- ===== src/Settings/Precedence.antt =====
-- Environment variables against the `[runtime]` table in src/server/config.ts.
use connexin.Prelude.{
  ℕ, suc, not, any, has_text, starts_with, trim_text, codes, map, ◌++◌, ◌||◌, ◌≡◌, refl, subst,
  true, false, List, [], ◌∷◌, Option, none, some, inl, inr, if◌then◌else◌, Bool-cases, text_eq,
  text_eq→eq,
}
use connexin.Utf8.{Text}
use connexin.Toml.{strip_comment, split_equals}
use connexin.SshConfig.Tokens.{split_lines}
use connexin.Settings.Values.{
  Env, env_get, ok, failed, Setting, ◌>>=◌, invalid_runtime_key, unknown_runtime_key,
  duplicate_runtime_key,
}
use connexin.Settings.Gives.{Gives, bind-Gives, Anything, Gives-Anything, if-Gives}
use connexin.Settings.Runtime.{
  put_default, runtime_env_from_config, RuntimeParse, put_value, take_entry, take_pair, take_line,
  take_lines, values_of, is_key_unit, upper, runtime_env_keys, parse_runtime_scalar,
}

module _ (k v : Text) where
  abbrev HasValue : RuntimeParse → Type 0
  HasValue st = env_get k st.values ≡ some v

  put_default-HasValue :
      (key value : Text) (o : Option Text) (env : Env)
      → env_get key env ≡ o
      → env_get k env ≡ some v
      → env_get k (put_default key value o env) ≡ some v
  unfolding env_get
  put_default-HasValue key value (some old) env f h = h
  put_default-HasValue key value none env f h = elim (Bool-cases (text_eq key k)) [
    | inl same ↦ absurd (text_eq→eq key k same)
    | inr other ↦ rw (other) h
  ]
    where
      absurd : key ≡ k → (if text_eq key k then some value else env_get k env) ≡ some v
      absurd e = cc

  put_value-HasValue :
      (st : RuntimeParse) (n : ℕ) (env_key value : Text)
      → HasValue st
      → Gives HasValue (put_value st n env_key value)
  put_value-HasValue st n env_key value h =
      if-Gives HasValue (not (has_text env_key runtime_env_keys)) (failed (unknown_runtime_key n))
        (if has_text env_key st.config_env_keys then failed (duplicate_runtime_key n) else stored)
        tt
        (if-Gives HasValue (has_text env_key st.config_env_keys) (failed (duplicate_runtime_key n))
          stored tt
          (put_default-HasValue env_key value (env_get env_key st.values) st.values refl h))
    where
      stored : Setting RuntimeParse
      stored = ok (record st {
        config_env_keys = env_key ∷ st.config_env_keys;
        values = put_default env_key value (env_get env_key st.values) st.values;
      })

  take_entry-HasValue :
      (st : RuntimeParse) (n : ℕ) (key raw : Text)
      → HasValue st
      → Gives HasValue (take_entry st n key raw)
  unfolding take_entry
  take_entry-HasValue st n key raw h =
      let env_key = codes "CONNEXIN_" ++ map upper key in
      if-Gives HasValue (text_eq key [] || any (λ c. not (is_key_unit c)) key)
        (failed (invalid_runtime_key key)) (parse_runtime_scalar raw n >>= put_value st n env_key)
        tt
        (bind-Gives Anything HasValue (parse_runtime_scalar raw n) (put_value st n env_key)
          (Gives-Anything _) (λ value _. put_value-HasValue st n env_key value h))

  take_pair-HasValue :
      (st : RuntimeParse) (n : ℕ) (o : Option (Text × Text))
      → HasValue st
      → Gives HasValue (take_pair st n o)
  take_pair-HasValue st n none h = h
  take_pair-HasValue st n (some (key, raw)) h =
      take_entry-HasValue st n (trim_text key) (trim_text raw) h

  take_line-HasValue :
      (st : RuntimeParse) (n : ℕ) (line : Text) → HasValue st → Gives HasValue (take_line st n line)
  unfolding take_line
  take_line-HasValue st n line h =
      let text = trim_text (strip_comment line) in
      let entry = take_pair st n (split_equals text) in
      let inside = if not st.runtime then ok st else entry in
      let table =
        if starts_with text (codes "[") then ok (record st { runtime = false }) else inside in
      let rest =
        if text_eq text (codes "[runtime]") then ok (record st { runtime = true }) else table in
      if-Gives HasValue (text_eq text []) (ok st) rest h (
        if-Gives HasValue (text_eq text (codes "[runtime]")) (ok (record st { runtime = true }))
          table h
          (if-Gives HasValue (starts_with text (codes "[")) (ok (record st { runtime = false }))
            inside h
            (if-Gives HasValue (not st.runtime) (ok st) entry h
              (take_pair-HasValue st n (split_equals text) h))))

  take_lines-HasValue :
      (m : Setting RuntimeParse) (n : ℕ) (lines : List Text)
      → Gives HasValue m
      → Gives HasValue (take_lines m n lines)
  unfolding take_lines
  take_lines-HasValue (failed e) n lines h = tt
  take_lines-HasValue (ok st) n [] h = h
  take_lines-HasValue (ok st) n (line ∷ lines) h =
      take_lines-HasValue (take_line st n line) (suc n) lines (take_line-HasValue st n line h)

  values-Gives :
      (m : Setting RuntimeParse)
      → Gives HasValue m
      → Gives (λ env. env_get k env ≡ some v) (values_of m)
  values-Gives (ok st) h = h
  values-Gives (failed e) h = tt

  -- A variable that the environment sets keeps its value, whatever connexin.toml says.
  pub runtime_env_from_config_keeps :
      (source_env : Env) (source : Option Text) (env : Env)
      → env_get k source_env ≡ some v
      → runtime_env_from_config source_env source ≡ ok env
      → env_get k env ≡ some v
  unfolding runtime_env_from_config
  runtime_env_from_config_keeps source_env none env h e =
      subst (λ x. env_get k x ≡ some v) (unwrap e) h
    where
      unwrap : {x : Env} → ok x ≡ ok env → x ≡ env
      unwrap e = cc
  runtime_env_from_config_keeps source_env (some source) env h e =
      subst (Gives (λ x. env_get k x ≡ some v)) e (
        values-Gives _ (
          take_lines-HasValue
            (ok (record { values = source_env; config_env_keys = []; runtime = false })) 1
            (split_lines source) h))

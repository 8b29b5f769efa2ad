-- ===== src/Settings/Load/Sound.antt =====
-- What every configuration loaded by src/server/config.ts has.
use connexin.Prelude.{
  ℕ, ◌≤◌, ◌<◌, ◌≡◌, refl, ap, ap₂, subst, ◌∙◌, Bool, true, false, List, [], ◌∷◌, ◌++◌, map, Option,
  none, some, inl, inr, arith, Bool-cases, All, ◌==◌, ltb, ltb-false→le, codes,
}
use connexin.Utf8.{Text}
use connexin.Numbers.{JsNumber, natural, minus_suc, no_safe_integer}
use connexin.Settings.Values.{
  Setting, ok, failed, ◌>>=◌, Env, env_get, non_blank, positive_of, number_or, number_from_env,
  port_of, port_or, port_from_env, boolean_from_env,
}
use connexin.Settings.Gives.{Gives, bind-Gives, Anything, Gives-Anything}
use connexin.Settings.Origins.{allowed_origins_from_env, optional_base_url}
use connexin.Settings.Runtime.{runtime_env_from_config}
use connexin.Settings.Load.{
  Limit, key_of, default_of, session_limits, file_limits, lease_limits, SettingsWorld,
  RuntimeConfig, load_limits, lacks_origins, origins_checked, load_from_env, load_runtime_config,
}

-- Positive, and the default where the environment says nothing.
abbrev pub IsLoaded : Env → Limit × ℕ → Type 0
IsLoaded env (limit, n) =
    (0 < n) × (non_blank (env_get (key_of limit) env) ≡ none → n ≡ default_of limit)

default_positive : (limit : Limit) → 0 < default_of limit
default_positive limit = ground arith

positive-Gives : (key : Text) (n : JsNumber) → Gives (λ m. 0 < m) (positive_of key n)
positive-Gives key (natural n) = elim (Bool-cases (n == 0)) [
  | inl zero_value ↦ rw (zero_value) tt
  | inr other ↦ rw (other) (ground arith)
]
positive-Gives key (minus_suc n) = tt
positive-Gives key no_safe_integer = tt

number-Gives :
    (number : Text → JsNumber) (limit : Limit) (o : Option Text)
    → Gives
        (λ n. (0 < n) × (o ≡ none → n ≡ default_of limit))
        (number_or number (key_of limit) (default_of limit) o)
number-Gives number limit none = (default_positive limit, λ e. refl)
number-Gives number limit (some raw) =
    weaken (positive_of (key_of limit) (number raw)) (positive-Gives (key_of limit) (number raw))
  where
    weaken :
        (m : Setting ℕ)
        → Gives (λ n. 0 < n) m
        → Gives (λ n. (0 < n) × (some raw ≡ none → n ≡ default_of limit)) m
    weaken (ok n) h = (h, λ e. cc)
    weaken (failed e) h = tt

-- The loaded entries are those of the limits asked for, in their order.
abbrev AreLoaded : Env → List Limit → List (Limit × ℕ) → Type 0
AreLoaded env limits loaded =
    (map (λ (e : Limit × ℕ). e.0) loaded ≡ limits) × All (IsLoaded env) loaded

load_limits-Gives :
    (number : Text → JsNumber) (env : Env) (limits : List Limit)
    → Gives (AreLoaded env limits) (load_limits number env limits)
unfolding load_limits number_from_env
load_limits-Gives number env [] = (refl, tt)
load_limits-Gives number env (limit ∷ rest) =
    bind-Gives _ (AreLoaded env (limit ∷ rest))
      (number_from_env number env (key_of limit) (default_of limit)) _
      (number-Gives number limit (non_blank (env_get (key_of limit) env)))
      (λ n one.
        bind-Gives (AreLoaded env rest) (AreLoaded env (limit ∷ rest)) (load_limits number env rest)
          _ (load_limits-Gives number env rest)
          (λ others all. (ap (◌∷◌ limit) all.0, (one, all.1))))

port-Gives :
    (number : Text → JsNumber) (key : Text) (o : Option Text)
    → Gives (λ n. n ≤ 65535) (port_or number key 0 o)
port-Gives number key none = omega arith
port-Gives number key (some raw) = of_number (number raw)
  where
    of_number : (n : JsNumber) → Gives (λ n. n ≤ 65535) (port_of key n)
    of_number (natural n) = elim (Bool-cases (ltb 65535 n)) [
      | inl big ↦ rw (big) tt
      | inr fits ↦ rw (fits) (ltb-false→le 65535 n fits)
    ]
    of_number (minus_suc n) = tt
    of_number no_safe_integer = tt

map-append :
    (xs ys : List (Limit × ℕ))
    → map (λ (e : Limit × ℕ). e.0) (xs ++ ys)
      ≡ map (λ (e : Limit × ℕ). e.0) xs ++ map (λ (e : Limit × ℕ). e.0) ys
map-append [] ys = refl
map-append (x ∷ xs) ys = ap (◌∷◌ x.0) (map-append xs ys)

All-append :
    (P : Limit × ℕ → Type 0) (xs ys : List (Limit × ℕ)) → All P xs → All P ys → All P (xs ++ ys)
All-append P [] ys h k = k
All-append P (x ∷ xs) ys h k = (h.0, All-append P xs ys h.1 k)

loaded-append :
    (env : Env) (ls ms : List Limit) (xs ys : List (Limit × ℕ))
    → AreLoaded env ls xs
    → AreLoaded env ms ys
    → AreLoaded env (ls ++ ms) (xs ++ ys)
loaded-append env ls ms xs ys h k =
    (map-append xs ys ∙ ap₂ ◌++◌ h.0 k.0, All-append (IsLoaded env) xs ys h.1 k.1)

pub record IsSound (env : Env) (c : RuntimeConfig) : Type 0 where
  pub all_limits :
      map (λ (e : Limit × ℕ). e.0) c.limits ≡ session_limits ++ (file_limits ++ lease_limits)
  pub loaded : All (IsLoaded env) c.limits
  pub port : c.bridge_port ≤ 65535
  pub origins : lacks_origins c.bridge_public_url c.allowed_origins ≡ false

load_from_env-Gives : (w : SettingsWorld) (env : Env) → Gives (IsSound env) (load_from_env w env)
unfolding load_from_env port_from_env
load_from_env-Gives w env =
    bind-Gives Anything (IsSound env) (allowed_origins_from_env w.url env) _ (Gives-Anything _)
      (λ origins _.
        bind-Gives Anything (IsSound env)
          (optional_base_url w.url env (codes "CONNEXIN_BRIDGE_PUBLIC_URL")) _ (Gives-Anything _)
          (λ public_url _.
            bind-Gives (λ b. lacks_origins public_url origins ≡ false) (IsSound env)
              (origins_checked (lacks_origins public_url origins)) _
              (checked (lacks_origins public_url origins))
              (λ b has_origins.
                bind-Gives (AreLoaded env session_limits) (IsSound env)
                  (load_limits w.number env session_limits) _
                  (load_limits-Gives w.number env session_limits)
                  (λ sessions s.
                    bind-Gives (λ n. n ≤ 65535) (IsSound env)
                      (port_from_env w.number env (codes "CONNEXIN_BRIDGE_PORT") 0) _
                      (port-Gives w.number (codes "CONNEXIN_BRIDGE_PORT")
                        (non_blank (env_get (codes "CONNEXIN_BRIDGE_PORT") env)))
                      (λ port p.
                        bind-Gives (AreLoaded env file_limits) (IsSound env)
                          (load_limits w.number env file_limits) _
                          (load_limits-Gives w.number env file_limits)
                          (λ files f.
                            bind-Gives Anything (IsSound env)
                              (boolean_from_env env (codes "CONNEXIN_REQUIRE_APP_HOST") true) _
                              (Gives-Anything _)
                              (λ app_host _.
                                bind-Gives Anything (IsSound env)
                                  (boolean_from_env env
                                    (codes "CONNEXIN_FILE_ROOT_CONFINEMENT_ENFORCED") false)
                                  _ (Gives-Anything _)
                                  (λ enforced _.
                                    bind-Gives (AreLoaded env lease_limits) (IsSound env)
                                      (load_limits w.number env lease_limits) _
                                      (load_limits-Gives w.number env lease_limits)
                                      (λ leases l.
                                        let all =
                                          loaded-append env session_limits
                                            (file_limits ++ lease_limits) sessions (files ++ leases)
                                            s
                                            (loaded-append env file_limits lease_limits files leases
                                              f l) in
                                        record {
                                          all_limits = all.0;
                                          loaded = all.1;
                                          port = p;
                                          origins = has_origins;
                                        })))))))))
  where
    checked : (b : Bool) → Gives (λ x. b ≡ false) (origins_checked b)
    checked true = tt
    checked false = refl

-- A configuration that is loaded has every numeric setting exactly once, positive, and its default
-- where the environment and connexin.toml give none; its port is at most 65535; and a public URL
-- comes with at least one allowed origin.
pub load_runtime_config-IsSound :
    (w : SettingsWorld) (source_env : Env) (c : RuntimeConfig)
    → load_runtime_config w source_env ≡ ok c
    → (env : Env) × (runtime_env_from_config source_env w.config_source ≡ ok env) × IsSound env c
unfolding load_runtime_config
load_runtime_config-IsSound w source_env c e =
    through (runtime_env_from_config source_env w.config_source) refl e
  where
    given :
        (env : Env) (m : Setting RuntimeConfig) → Gives (IsSound env) m → m ≡ ok c → IsSound env c
    given env (ok x) h e = subst (IsSound env) (unwrap e) h
      where
        unwrap : {x : RuntimeConfig} → ok x ≡ ok c → x ≡ c
        unwrap e = cc
    given env (failed x) h e = cc

    through :
        (m : Setting Env)
        → runtime_env_from_config source_env w.config_source ≡ m
        → (m >>= load_from_env w) ≡ ok c
        → (env : Env) × (runtime_env_from_config source_env w.config_source ≡ ok env)
          × IsSound env c
    through (ok env) f e = (env, f, given env (load_from_env w env) (load_from_env-Gives w env) e)
    through (failed x) f e = cc

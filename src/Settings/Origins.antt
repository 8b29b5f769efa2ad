-- ===== src/Settings/Origins.antt =====
-- The origins and the public URL of src/server/config.ts.
use connexin.Prelude.{
  ends_with, ℕ, ◌-◌, Bool, true, false, not, ◌&&◌, ◌||◌, List, [], ◌∷◌, ◌++◌, Option, none, some,
  ◌==◌, if◌then◌else◌, any, codes, has_unit, has_text, starts_with, text_eq, trim_text, length,
  take, drop,
}
use connexin.Utf8.{Text}
use connexin.Settings.Values.{
  must_be_valid_origin, must_be_http_origin, stray_wildcard, invalid_url, must_be_http_url,
  must_use_https, must_not_have_path, Setting, ok, failed, ◌>>=◌, Env, env_get,
}

-- The parts of a parsed URL that are read. `bare` is its text once path, query and fragment are
-- cleared.
pub record Url : Type 0 where
  pub protocol : Text
  pub origin : Text
  pub host : Text
  pub hostname : Text
  pub pathname : Text
  pub bare : Text

-- `new URL(raw)`; `none` where it throws.
abbrev pub UrlParser : Type 0
UrlParser = Text → Option Url

abbrev is_http : Url → Bool
is_http u = text_eq u.protocol (codes "http:") || text_eq u.protocol (codes "https:")

abbrev origin_of : Text → Option Url → Setting Text
origin_of key none = failed (must_be_valid_origin key)
origin_of key (some u) =
    if not (is_http u)
    then failed (must_be_http_origin key)
    else if has_unit b'*' u.origin
    then failed (stray_wildcard key)
    else ok u.origin

unfoldable pub parse_http_origin : UrlParser → Text → Text → Setting Text
parse_http_origin url raw key = origin_of key (url raw)

abbrev wildcard_suffix : Text → Text → Option Text
wildcard_suffix prefix raw =
    let suffix = drop (length prefix) raw in
    if starts_with raw prefix && not (text_eq suffix []) && not (has_unit b'/' suffix)
    then some suffix
    else none

abbrev or_wildcard : Option (Text × Text) → Option (Text × Text) → Option (Text × Text)
or_wildcard none other = other
or_wildcard (some w) other = some w

abbrev with_scheme : Text → Option Text → Option (Text × Text)
with_scheme scheme none = none
with_scheme scheme (some suffix) = some (scheme, suffix)

-- `WILDCARD_ORIGIN_ENTRY.exec`: the scheme, and what stands behind `*.`.
unfoldable pub match_wildcard : Text → Option (Text × Text)
match_wildcard raw =
    or_wildcard (with_scheme (codes "http") (wildcard_suffix (codes "http://*.") raw))
      (with_scheme (codes "https") (wildcard_suffix (codes "https://*.") raw))

abbrev url_or_throw : Option Url → Setting Url
url_or_throw none = failed invalid_url
url_or_throw (some u) = ok u

abbrev wildcard_entry : UrlParser → Text → Text → Option (Text × Text) → Setting Text
wildcard_entry url raw key none = parse_http_origin url raw key
wildcard_entry url raw key (some (scheme, suffix)) = do
  base ← parse_http_origin url (scheme ++ (codes "://" ++ suffix)) key
  u ← url_or_throw (url base)
  ok (u.protocol ++ (codes "//*." ++ u.host))

unfoldable pub parse_allowed_origin_entry : UrlParser → Text → Text → Setting Text
unfolding parse_http_origin match_wildcard
parse_allowed_origin_entry url raw key = wildcard_entry url raw key (match_wildcard raw)

push_unit : ℕ → List Text → List Text
push_unit c [] = (c ∷ []) ∷ []
push_unit c (part ∷ parts) = (c ∷ part) ∷ parts

-- `split(",")`.
unfoldable pub split_commas : Text → List Text
unfolding push_unit
split_commas [] = [] ∷ []
split_commas (c ∷ rest) =
    let parts = split_commas rest in if c == b',' then [] ∷ parts else push_unit c parts

-- `map(trim)`, `filter(Boolean)` and `map(parseAllowedOriginEntry)`, the first error first.
unfoldable pub parse_entries : UrlParser → List Text → Setting (List Text)
unfolding parse_allowed_origin_entry
parse_entries url [] = ok []
parse_entries url (raw ∷ rest) =
    let others = parse_entries url rest in
    if text_eq (trim_text raw) [] then others else (do
      entry ← parse_allowed_origin_entry url (trim_text raw) (codes "CONNEXIN_ALLOWED_ORIGINS")
      entries ← others
      ok (entry ∷ entries))

-- `[...new Set(entries)]`.
unfoldable pub distinct_from : (seen entries : List Text) → List Text
distinct_from seen [] = []
distinct_from seen (entry ∷ rest) =
    let skipped = distinct_from seen rest in
    let kept = distinct_from (entry ∷ seen) rest in
    if has_text entry seen then skipped else entry ∷ kept

abbrev text_or : Text → Option Text → Text
text_or fallback none = fallback
text_or fallback (some t) = t

unfoldable pub allowed_origins_from_env : UrlParser → Env → Setting (List Text)
unfolding parse_entries distinct_from split_commas env_get
allowed_origins_from_env url env = do
  entries ←
      parse_entries url (split_commas (text_or [] (env_get (codes "CONNEXIN_ALLOWED_ORIGINS") env)))
  ok (distinct_from [] entries)

-- `indexOf("//*.")`, as the texts before it and behind it.
unfoldable pub split_wildcard : Text → Option (Text × Text)
split_wildcard [] = none
split_wildcard (c ∷ rest) = elim (starts_with (c ∷ rest) (codes "//*.")) [
  | true ↦ some ([], drop 4 (c ∷ rest))
  | false ↦ elim (split_wildcard rest) [
    | none ↦ none
    | some (before, behind) ↦ some (c ∷ before, behind)
  ]
]

-- Whether one entry allows the origin.
unfoldable pub entry_allows : Url → Text → Option (Text × Text) → Bool
entry_allows u entry none = text_eq entry u.origin
entry_allows u entry (some (scheme, suffix)) =
    let dotted = b'.' ∷ suffix in
    let label = take (length u.host - length dotted) u.host in
    text_eq (u.protocol ++ codes "//*.") (scheme ++ codes "//*.")
    && ends_with u.host dotted
    && not (text_eq label [])
    && not (has_unit b'.' label)

abbrev pub url_allowed : List Text → Option Url → Bool
url_allowed entries none = false
url_allowed entries (some u) = any (λ entry. entry_allows u entry (split_wildcard entry)) entries

unfoldable pub is_origin_allowed : UrlParser → List Text → Text → Bool
unfolding entry_allows split_wildcard
is_origin_allowed url allowed_origins request_origin =
    url_allowed allowed_origins (url request_origin)

unfoldable pub is_loopback_hostname : Text → Bool
is_loopback_hostname hostname =
    text_eq hostname (codes "localhost")
    || text_eq hostname (codes "127.0.0.1")
    || starts_with hostname (codes "127.")
    || text_eq hostname (codes "[::1]")
    || text_eq hostname (codes "::1")

-- `.replace(/\/$/, "")`.
abbrev without_slash : Text → Text
without_slash text = if ends_with text (codes "/") then take (length text - 1) text else text

abbrev check_base_url : Env → Text → Url → Setting Text
check_base_url env key u =
    if not (is_http u)
    then failed (must_be_http_url key)
    else if text_eq u.protocol (codes "http:")
        && not (is_loopback_hostname u.hostname)
        && not (
            text_eq (text_or [] (env_get (codes "CONNEXIN_ALLOW_INSECURE_PUBLIC_BRIDGE") env))
              (codes "1"))
    then failed (must_use_https key)
    else if not (text_eq u.pathname (codes "/")) && not (text_eq u.pathname [])
    then failed (must_not_have_path key)
    else ok (without_slash u.bare)

abbrev base_url : UrlParser → Env → Text → Text → Setting (Option Text)
base_url url env key [] = ok none
base_url url env key (c ∷ raw) = do
  u ← url_or_throw (url (c ∷ raw))
  base ← check_base_url env key u
  ok (some base)

unfoldable pub optional_base_url : UrlParser → Env → Text → Setting (Option Text)
unfolding is_loopback_hostname env_get
optional_base_url url env key = base_url url env key (trim_text (text_or [] (env_get key env)))

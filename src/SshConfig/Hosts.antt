-- ===== src/SshConfig/Hosts.antt =====
-- `parseSshConfigHosts` of src/server/ssh-config.ts, with the directives that it refuses.
use connexin.Prelude.{
  Bool, not, ◌&&◌, List, [], ◌∷◌, ◌++◌, Option, none, some, ◌==◌, if◌then◌else◌, any, filter,
  has_unit, has_text, starts_with, text_eq, codes,
}
use connexin.Utf8.{Text}
use connexin.SshConfig.Tokens.{to_lower_case, split_lines, before_equals, line_tokens}

unfoldable pub is_explicit_alias : Text → Bool
is_explicit_alias alias =
    not (text_eq alias (codes "*"))
    && not (has_unit b'*' alias)
    && not (has_unit b'?' alias)
    && not (starts_with alias (b'!' ∷ []))

pub data UnsafeDirective : Type 0 where
  proxy_command known_hosts_command local_command remote_command : UnsafeDirective
  permit_local_command pkcs11_provider security_key_provider : UnsafeDirective

pub data SshConfigError : Type 0 where
  unsupported_in_host : List Text → UnsafeDirective → SshConfigError
  unsupported_in_global_scope : UnsafeDirective → SshConfigError
  backslash_in_host_pattern match_exec : SshConfigError

pub data Parsed {ℓ} (A : Type ℓ) : Type ℓ where
  parsed : A → Parsed A
  refused : SshConfigError → Parsed A

-- `args.join(" ")`.
abbrev join_space : List Text → Text
join_space [] = []
join_space (arg ∷ []) = arg
join_space (arg ∷ next ∷ rest) = arg ++ 0x20 ∷ join_space (next ∷ rest)

-- `args[0]?.toLowerCase() ?? ""`.
first_lower : List Text → Text
unfolding to_lower_case
first_lower [] = []
first_lower (arg ∷ rest) = to_lower_case arg

unfoldable pub unsafe_execution_directive : Text → List Text → Option UnsafeDirective
unfolding to_lower_case first_lower
unsafe_execution_directive keyword args =
    let joined = to_lower_case (join_space args) in
    let is_none = text_eq joined (codes "none") in
    if text_eq keyword (codes "proxycommand") && not is_none
    then some proxy_command
    else if text_eq keyword (codes "knownhostscommand") && not is_none
    then some known_hosts_command
    else if text_eq keyword (codes "localcommand")
    then some local_command
    else if text_eq keyword (codes "remotecommand") && not is_none
    then some remote_command
    else if text_eq keyword (codes "permitlocalcommand")
        && has_text (first_lower args) (codes "yes" ∷ codes "true" ∷ codes "1" ∷ [])
    then some permit_local_command
    else if text_eq keyword (codes "pkcs11provider") && not is_none
    then some pkcs11_provider
    else if text_eq keyword (codes "securitykeyprovider") && not (text_eq joined (codes "internal"))
    then some security_key_provider
    else none

abbrev drop_bangs : Text → Text
drop_bangs [] = []
drop_bangs (c ∷ rest) = if c == b'!' then drop_bangs rest else c ∷ rest

unfoldable pub is_match_exec_criterion : Text → Bool
unfolding to_lower_case
is_match_exec_criterion arg =
    text_eq (drop_bangs (before_equals (to_lower_case arg))) (codes "exec")

-- The variables of `parseSshConfigHosts`; `seen` is a set.
pub record HostParse : Type 0 where
  pub seen : List Text
  pub hosts : List Text
  pub current_aliases : List Text
  pub current_patterns : List Text
  pub current_unsafe_directive : Option UnsafeDirective

abbrev pub new_parse : HostParse
new_parse = record {
  seen = [];
  hosts = [];
  current_aliases = [];
  current_patterns = [];
  current_unsafe_directive = none;
}

-- The loop of `flushHostBlock`.
unfoldable pub add_aliases : List Text → (seen hosts : List Text) → List Text × List Text
add_aliases [] seen hosts = (seen, hosts)
add_aliases (alias ∷ rest) seen hosts =
    let skipped = add_aliases rest seen hosts in
    let added = add_aliases rest (alias ∷ seen) (hosts ++ alias ∷ []) in
    if has_text alias seen then skipped else added

unfoldable pub end_block : HostParse → HostParse
unfolding add_aliases
end_block st =
    let (seen, hosts) = add_aliases st.current_aliases st.seen st.hosts in
    record {
      seen = seen;
      hosts = hosts;
      current_aliases = [];
      current_patterns = [];
      current_unsafe_directive = none;
    }

unfoldable pub flush_checked : HostParse → Option UnsafeDirective → List Text → Parsed HostParse
unfolding end_block
flush_checked st (some directive) (pattern ∷ patterns) =
    refused (unsupported_in_host (pattern ∷ patterns) directive)
flush_checked st (some directive) [] = parsed (end_block st)
flush_checked st none patterns = parsed (end_block st)

unfoldable pub flush_host_block : HostParse → Parsed HostParse
unfolding flush_checked
flush_host_block st = flush_checked st st.current_unsafe_directive st.current_patterns

unfoldable pub open_host : List Text → Parsed HostParse → Parsed HostParse
unfolding is_explicit_alias
open_host args (refused e) = refused e
open_host args (parsed st) =
    parsed (record st { current_patterns = args; current_aliases = filter is_explicit_alias args })

unfoldable pub enter_match : List Text → Parsed HostParse → Parsed HostParse
unfolding is_match_exec_criterion
enter_match args (refused e) = refused e
enter_match args (parsed st) =
    if any is_match_exec_criterion args then refused match_exec else parsed st

-- `currentUnsafeDirective ??= unsafeDirective`.
abbrev pub first_directive : Option UnsafeDirective → UnsafeDirective → Option UnsafeDirective
first_directive none directive = some directive
first_directive (some earlier) directive = some earlier

unfoldable pub note_directive : HostParse → Option UnsafeDirective → List Text → Parsed HostParse
note_directive st none patterns = parsed st
note_directive st (some directive) [] = refused (unsupported_in_global_scope directive)
note_directive st (some directive) (pattern ∷ patterns) =
    parsed (record st {
      current_unsafe_directive = first_directive st.current_unsafe_directive directive;
    })

unfoldable pub parse_keyword : HostParse → Text → List Text → Parsed HostParse
unfolding flush_host_block open_host enter_match note_directive unsafe_execution_directive
parse_keyword st keyword args =
    if text_eq keyword (codes "host")
    then (if any (has_unit 0x5c) args
        then refused backslash_in_host_pattern
        else open_host args (flush_host_block st))
    else if text_eq keyword (codes "match")
    then enter_match args (flush_host_block st)
    else note_directive st (unsafe_execution_directive keyword args) st.current_patterns

-- A line with no token has no keyword, and no directive.
unfoldable pub parse_tokens : HostParse → Option (List Text) → Parsed HostParse
unfolding parse_keyword to_lower_case
parse_tokens st none = parsed st
parse_tokens st (some []) = parsed st
parse_tokens st (some (keyword ∷ args)) = parse_keyword st (to_lower_case keyword) args

unfoldable pub parse_lines : Parsed HostParse → List Text → Parsed HostParse
unfolding parse_tokens line_tokens flush_host_block
parse_lines (refused e) lines = refused e
parse_lines (parsed st) [] = flush_host_block st
parse_lines (parsed st) (line ∷ lines) = parse_lines (parse_tokens st (line_tokens line)) lines

abbrev pub hosts_of : Parsed HostParse → Parsed (List Text)
hosts_of (refused e) = refused e
hosts_of (parsed st) = parsed st.hosts

unfoldable pub parse_ssh_config_hosts : Text → Parsed (List Text)
unfolding parse_lines split_lines
parse_ssh_config_hosts source = hosts_of (parse_lines (parsed new_parse) (split_lines source))

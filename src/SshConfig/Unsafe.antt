-- ===== src/SshConfig/Unsafe.antt =====
-- The directives that run local commands, and what src/server/ssh-config.ts does about them.
use connexin.Prelude.{
  ◌≡◌, refl, sym, ap, ap₂, subst, ◌⊎◌, inl, inr, Bool, true, false, ◌&&◌, List, [], ◌∷◌, Option,
  none, some, Bool-cases, Option-cases, any, All, has_unit, text_eq, text_eq→eq, codes,
}
use connexin.Utf8.{Text}
use connexin.SshConfig.Tokens.{to_lower_case, split_lines, line_tokens}
use connexin.SshConfig.Hosts.{
  UnsafeDirective, Parsed, parsed, refused, HostParse, unsupported_in_host,
  unsafe_execution_directive, is_match_exec_criterion, flush_checked, flush_host_block, open_host,
  enter_match, first_directive, note_directive, parse_keyword, parse_tokens, parse_lines, new_parse,
  parse_ssh_config_hosts, hosts_of,
}

-- The directive that a line has, and whether it is a `Match` with `exec`, whatever block it is in.
abbrev pub directive_of : Option (List Text) → Option UnsafeDirective
directive_of none = none
directive_of (some []) = none
directive_of (some (keyword ∷ args)) = unsafe_execution_directive (to_lower_case keyword) args

abbrev pub is_exec_match : Option (List Text) → Bool
is_exec_match none = false
is_exec_match (some []) = false
is_exec_match (some (keyword ∷ args)) =
    text_eq (to_lower_case keyword) (codes "match") && any is_match_exec_criterion args

abbrev IsHarmlessTokens : Option (List Text) → Type 0
IsHarmlessTokens tokens = (directive_of tokens ≡ none) × (is_exec_match tokens ≡ false)

abbrev pub IsHarmless : Text → Type 0
IsHarmless line =
    (directive_of (line_tokens line) ≡ none) × (is_exec_match (line_tokens line) ≡ false)

-- An unsafe directive is noted in a block with patterns: the end of the block will refuse it.
record IsPending (st : HostParse) : Type 0 where
  directive : UnsafeDirective
  pattern : Text
  patterns : List Text
  noted : st.current_unsafe_directive ≡ some directive
  within : st.current_patterns ≡ pattern ∷ patterns

abbrev IsStuck : Parsed HostParse → Type 0
IsStuck (refused e) = Unit
IsStuck (parsed st) = IsPending st

abbrev IsRefused : Parsed HostParse → Type 0
IsRefused (refused e) = Unit
IsRefused (parsed st) = ⊥

module _ (st : HostParse) (p : IsPending st) where
  flush-refused :
      flush_host_block st ≡ refused (unsupported_in_host (p.pattern ∷ p.patterns) p.directive)
  unfolding flush_host_block flush_checked
  flush-refused = ap₂ (flush_checked st) p.noted p.within

  noted-IsStuck :
      (o : Option UnsafeDirective) → IsStuck (note_directive st o (p.pattern ∷ p.patterns))
  unfolding note_directive
  noted-IsStuck none = p
  noted-IsStuck (some d) = record {
    directive = p.directive;
    pattern = p.pattern;
    patterns = p.patterns;
    noted = ap (λ o. first_directive o d) p.noted;
    within = p.within;
  }

  keyword-IsStuck : (keyword : Text) (args : List Text) → IsStuck (parse_keyword st keyword args)
  unfolding parse_keyword open_host enter_match
  keyword-IsStuck keyword args = elim (Bool-cases (text_eq keyword (codes "host"))) [
    | inl host ↦ elim (Bool-cases (any (has_unit 0x5c) args)) [
      | inl escaped ↦ rw (host, escaped) tt
      | inr plain ↦
          rw (host, plain) (subst (λ r. IsStuck (open_host args r)) (sym flush-refused) tt)
    ]
    | inr other ↦ elim (Bool-cases (text_eq keyword (codes "match"))) [
      | inl a_match ↦
          rw (other, a_match) (subst (λ r. IsStuck (enter_match args r)) (sym flush-refused) tt)
      | inr directive ↦
          rw (other, directive)
            (subst (λ x. IsStuck (note_directive st (unsafe_execution_directive keyword args) x))
              (sym p.within) (noted-IsStuck (unsafe_execution_directive keyword args)))
    ]
  ]

  tokens-IsStuck : (tokens : Option (List Text)) → IsStuck (parse_tokens st tokens)
  unfolding parse_tokens
  tokens-IsStuck none = p
  tokens-IsStuck (some []) = p
  tokens-IsStuck (some (keyword ∷ args)) = keyword-IsStuck (to_lower_case keyword) args

parse_lines-IsRefused :
    (r : Parsed HostParse) (lines : List Text) → IsStuck r → IsRefused (parse_lines r lines)
unfolding parse_lines
parse_lines-IsRefused (refused e) lines h = tt
parse_lines-IsRefused (parsed st) [] h = subst IsRefused (sym (flush-refused st h)) tt
parse_lines-IsRefused (parsed st) (line ∷ lines) h =
    parse_lines-IsRefused (parse_tokens st (line_tokens line)) lines
      (tokens-IsStuck st h (line_tokens line))

first_directive-some :
    (o : Option UnsafeDirective) (d : UnsafeDirective)
    → (x : UnsafeDirective) × (first_directive o d ≡ some x)
first_directive-some none d = (d, refl)
first_directive-some (some e) d = (e, refl)

unsafe-IsStuck :
    (st : HostParse) (d : UnsafeDirective) (patterns : List Text)
    → st.current_patterns ≡ patterns
    → IsStuck (note_directive st (some d) patterns)
unfolding note_directive
unsafe-IsStuck st d [] e = tt
unsafe-IsStuck st d (pattern ∷ patterns) e =
    let (x, is_some) = first_directive-some st.current_unsafe_directive d in
    record { directive = x; pattern = pattern; patterns = patterns; noted = is_some; within = e }

exec-IsStuck :
    (args : List Text) (r : Parsed HostParse)
    → any is_match_exec_criterion args ≡ true
    → IsStuck (enter_match args r)
unfolding enter_match
exec-IsStuck args (refused e) h = tt
exec-IsStuck args (parsed st) h = rw (h) tt

host_or_match_harmless :
    (keyword : Text) (args : List Text)
    → (keyword ≡ codes "host") ⊎ (keyword ≡ codes "match")
    → unsafe_execution_directive keyword args ≡ none
unfolding unsafe_execution_directive
host_or_match_harmless keyword args (inl host) = rw (host) refl
host_or_match_harmless keyword args (inr a_match) = rw (a_match) refl

-- A line is harmless, or leads to a refusal.
tokens_cases :
    (st : HostParse) (tokens : Option (List Text))
    → IsStuck (parse_tokens st tokens) ⊎ IsHarmlessTokens tokens
unfolding parse_tokens parse_keyword
tokens_cases st none = inr (refl, refl)
tokens_cases st (some []) = inr (refl, refl)
tokens_cases st (some (word ∷ args)) =
    let keyword = to_lower_case word in
    elim (Bool-cases (text_eq keyword (codes "host"))) [
      | inl host ↦
          let is_host = text_eq→eq keyword (codes "host") host in
          inr (host_or_match_harmless keyword args (inl is_host), rw (is_host) refl)
      | inr other ↦ elim (Bool-cases (text_eq keyword (codes "match"))) [
        | inl a_match ↦ elim (Bool-cases (any is_match_exec_criterion args)) [
          | inl exec ↦ inl (rw (other, a_match) (exec-IsStuck args (flush_host_block st) exec))
          | inr plain ↦ inr (
            host_or_match_harmless keyword args (inr (text_eq→eq keyword (codes "match") a_match)),
            rw (a_match, plain) refl,
          )
        ]
        | inr directive ↦ elim (Option-cases (unsafe_execution_directive keyword args)) [
          | inl safe ↦ inr (safe, rw (directive) refl)
          | inr (d, unsafe) ↦
              inl (rw (other, directive, unsafe) (unsafe-IsStuck st d st.current_patterns refl))
        ]
      ]
    ]

not_refused : (r : Parsed HostParse) (st : HostParse) → r ≡ parsed st → IsRefused r → ⊥
not_refused (refused e) st h _ = cc
not_refused (parsed s) st h away = away

accepted_lines :
    (r : Parsed HostParse) (lines : List Text) (st : HostParse)
    → parse_lines r lines ≡ parsed st
    → All IsHarmless lines
unfolding parse_lines
accepted_lines (refused e) lines st h = cc
accepted_lines (parsed s) [] st h = tt
accepted_lines (parsed s) (line ∷ lines) st h =
    let r = parse_tokens s (line_tokens line) in
    elim (tokens_cases s (line_tokens line)) [
      | inl stuck ↦
          absurd (not_refused (parse_lines r lines) st h (parse_lines-IsRefused r lines stuck))
      | inr harmless ↦ (harmless, accepted_lines r lines st h)
    ]

hosts_accepted :
    (r : Parsed HostParse) (hosts : List Text)
    → hosts_of r ≡ parsed hosts
    → (st : HostParse) × (r ≡ parsed st)
hosts_accepted (refused e) hosts h = cc
hosts_accepted (parsed st) hosts h = (st, refl)

-- If a configuration is accepted, then no line of it, in whatever block, is a directive that
-- `unsafeExecutionDirective` names, nor a `Match` with `exec`.
pub parse_ssh_config_hosts-IsHarmless :
    (source : Text) (hosts : List Text)
    → parse_ssh_config_hosts source ≡ parsed hosts
    → All IsHarmless (split_lines source)
unfolding parse_ssh_config_hosts
parse_ssh_config_hosts-IsHarmless source hosts h =
    let lines = split_lines source in
    let (st, accepted) = hosts_accepted (parse_lines (parsed new_parse) lines) hosts h in
    accepted_lines (parsed new_parse) lines st accepted

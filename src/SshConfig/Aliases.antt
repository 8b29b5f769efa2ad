-- ===== src/SshConfig/Aliases.antt =====
-- The aliases that `parseSshConfigHosts` of src/server/ssh-config.ts returns.
use connexin.Prelude.{
  ◌≡◌, refl, sym, ap, ap₂, subst, ◌∙◌, Bool, true, false, ◌||◌, List, [], ◌∷◌, ◌++◌, Option, none,
  some, inl, inr, Bool-cases, any, filter, All, has_unit, has_text, text_eq, text_eq_sym, codes,
  or-false,
}
use connexin.Utf8.{Text}
use connexin.SshConfig.Tokens.{to_lower_case, split_lines, line_tokens}
use connexin.SshConfig.Hosts.{
  UnsafeDirective, Parsed, parsed, refused, HostParse, is_explicit_alias, add_aliases, end_block,
  unsafe_execution_directive, flush_checked, flush_host_block, open_host, enter_match,
  note_directive, parse_keyword, parse_tokens, parse_lines, new_parse, parse_ssh_config_hosts,
  hosts_of, is_match_exec_criterion,
}

-- No text twice.
abbrev pub AreDistinct : List Text → Type 0
AreDistinct [] = Unit
AreDistinct (x ∷ xs) = (has_text x xs ≡ false) × AreDistinct xs

abbrev pub IsExplicit : Text → Type 0
IsExplicit alias = is_explicit_alias alias ≡ true

has_text-snoc :
    (t : Text) (xs : List Text) (x : Text)
    → has_text t (xs ++ x ∷ []) ≡ (text_eq x t || has_text t xs)
has_text-snoc t [] x = refl
has_text-snoc t (y ∷ ys) x =
    ap (λ b. text_eq y t || b) (has_text-snoc t ys x)
    ∙ or_swap (text_eq y t) (text_eq x t) (has_text t ys)
  where
    or_swap : (a b c : Bool) → (a || (b || c)) ≡ (b || (a || c))
    or_swap true true c = refl
    or_swap true false c = refl
    or_swap false b c = refl

snoc-AreDistinct :
    (xs : List Text) (x : Text)
    → has_text x xs ≡ false
    → AreDistinct xs
    → AreDistinct (xs ++ x ∷ [])
snoc-AreDistinct [] x h d = (refl, tt)
snoc-AreDistinct (y ∷ ys) x h d =
    let (apart, fresh) = or-false h in
    (has_text-snoc y ys x ∙ ap₂ ◌||◌ (text_eq_sym x y ∙ apart) d.0, snoc-AreDistinct ys x fresh d.1)

snoc-All :
    (xs : List Text) (x : Text) → All IsExplicit xs → IsExplicit x → All IsExplicit (xs ++ x ∷ [])
snoc-All [] x h p = (p, tt)
snoc-All (y ∷ ys) x h p = (h.0, snoc-All ys x h.1 p)

filter-All : (xs : List Text) → All IsExplicit (filter is_explicit_alias xs)
filter-All [] = tt
filter-All (x ∷ xs) = elim (Bool-cases (is_explicit_alias x)) [
  | inl explicit ↦ rw (explicit) (explicit, filter-All xs)
  | inr other ↦ rw (other) (filter-All xs)
]

-- The set `seen` has the texts of `hosts`, which are distinct and explicit.
record AreSound (seen hosts : List Text) : Type 0 where
  agree : (t : Text) → has_text t seen ≡ has_text t hosts
  distinct : AreDistinct hosts
  explicit : All IsExplicit hosts

add_aliases-AreSound :
    (aliases seen hosts : List Text)
    → All IsExplicit aliases
    → AreSound seen hosts
    → AreSound (add_aliases aliases seen hosts).0 (add_aliases aliases seen hosts).1
unfolding add_aliases
add_aliases-AreSound [] seen hosts h s = s
add_aliases-AreSound (alias ∷ rest) seen hosts h s = elim (Bool-cases (has_text alias seen)) [
  | inl known ↦ rw (known) (add_aliases-AreSound rest seen hosts h.1 s)
  | inr new ↦ rw (new) (
      add_aliases-AreSound rest (alias ∷ seen) (hosts ++ alias ∷ []) h.1 (record {
        agree = λ t. ap (λ b. text_eq alias t || b) (s.agree t) ∙ sym (has_text-snoc t hosts alias);
        distinct = snoc-AreDistinct hosts alias (sym (s.agree alias) ∙ new) s.distinct;
        explicit = snoc-All hosts alias s.explicit h.0;
      }))
]

record IsSoundParse (st : HostParse) : Type 0 where
  sound : AreSound st.seen st.hosts
  pending : All IsExplicit st.current_aliases

abbrev IsSoundResult : Parsed HostParse → Type 0
IsSoundResult (refused e) = Unit
IsSoundResult (parsed st) = IsSoundParse st

end_block-IsSoundParse : (st : HostParse) → IsSoundParse st → IsSoundParse (end_block st)
unfolding end_block
end_block-IsSoundParse st s = record {
  sound = add_aliases-AreSound st.current_aliases st.seen st.hosts s.pending s.sound;
  pending = tt;
}

flush_checked-IsSoundResult :
    (st : HostParse) (o : Option UnsafeDirective) (patterns : List Text)
    → IsSoundParse st
    → IsSoundResult (flush_checked st o patterns)
unfolding flush_checked
flush_checked-IsSoundResult st (some d) (p ∷ ps) s = tt
flush_checked-IsSoundResult st (some d) [] s = end_block-IsSoundParse st s
flush_checked-IsSoundResult st none patterns s = end_block-IsSoundParse st s

flush-IsSoundResult : (st : HostParse) → IsSoundParse st → IsSoundResult (flush_host_block st)
unfolding flush_host_block
flush-IsSoundResult st s =
    flush_checked-IsSoundResult st st.current_unsafe_directive st.current_patterns s

open_host-IsSoundResult :
    (args : List Text) (r : Parsed HostParse) → IsSoundResult r → IsSoundResult (open_host args r)
unfolding open_host
open_host-IsSoundResult args (refused e) s = tt
open_host-IsSoundResult args (parsed st) s = record { sound = s.sound; pending = filter-All args }

enter_match-IsSoundResult :
    (args : List Text) (r : Parsed HostParse) → IsSoundResult r → IsSoundResult (enter_match args r)
unfolding enter_match
enter_match-IsSoundResult args (refused e) s = tt
enter_match-IsSoundResult args (parsed st) s =
    elim (Bool-cases (any is_match_exec_criterion args)) [
      | inl exec ↦ rw (exec) tt
      | inr plain ↦ rw (plain) s
    ]

note_directive-IsSoundResult :
    (st : HostParse) (o : Option UnsafeDirective) (patterns : List Text)
    → IsSoundParse st
    → IsSoundResult (note_directive st o patterns)
unfolding note_directive
note_directive-IsSoundResult st none patterns s = s
note_directive-IsSoundResult st (some d) [] s = tt
note_directive-IsSoundResult st (some d) (p ∷ ps) s = record {
  sound = s.sound;
  pending = s.pending;
}

keyword-IsSoundResult :
    (st : HostParse) (keyword : Text) (args : List Text)
    → IsSoundParse st
    → IsSoundResult (parse_keyword st keyword args)
unfolding parse_keyword
keyword-IsSoundResult st keyword args s = elim (Bool-cases (text_eq keyword (codes "host"))) [
  | inl host ↦ elim (Bool-cases (any (has_unit 0x5c) args)) [
    | inl escaped ↦ rw (host, escaped) tt
    | inr plain ↦
        rw (host, plain)
          (open_host-IsSoundResult args (flush_host_block st) (flush-IsSoundResult st s))
  ]
  | inr other ↦ elim (Bool-cases (text_eq keyword (codes "match"))) [
    | inl a_match ↦
        rw (other, a_match)
          (enter_match-IsSoundResult args (flush_host_block st) (flush-IsSoundResult st s))
    | inr directive ↦
        rw (other, directive)
          (note_directive-IsSoundResult st (unsafe_execution_directive keyword args)
            st.current_patterns s)
  ]
]

tokens-IsSoundResult :
    (st : HostParse) (tokens : Option (List Text))
    → IsSoundParse st
    → IsSoundResult (parse_tokens st tokens)
unfolding parse_tokens
tokens-IsSoundResult st none s = s
tokens-IsSoundResult st (some []) s = s
tokens-IsSoundResult st (some (keyword ∷ args)) s =
    keyword-IsSoundResult st (to_lower_case keyword) args s

lines-IsSoundResult :
    (r : Parsed HostParse) (lines : List Text)
    → IsSoundResult r
    → IsSoundResult (parse_lines r lines)
unfolding parse_lines
lines-IsSoundResult (refused e) lines s = tt
lines-IsSoundResult (parsed st) [] s = flush-IsSoundResult st s
lines-IsSoundResult (parsed st) (line ∷ lines) s =
    lines-IsSoundResult (parse_tokens st (line_tokens line)) lines
      (tokens-IsSoundResult st (line_tokens line) s)

sound_hosts :
    (r : Parsed HostParse) (hosts : List Text)
    → IsSoundResult r
    → hosts_of r ≡ parsed hosts
    → AreDistinct hosts × All IsExplicit hosts
sound_hosts (refused e) hosts s h = cc
sound_hosts (parsed st) hosts s h =
    subst (λ xs. AreDistinct xs × All IsExplicit xs) (same h) (s.sound.distinct, s.sound.explicit)
  where
    same : parsed st.hosts ≡ parsed hosts → st.hosts ≡ hosts
    same e = cc

-- The aliases of an accepted configuration are distinct, and none is a pattern or a negation.
pub parse_ssh_config_hosts_aliases :
    (source : Text) (hosts : List Text)
    → parse_ssh_config_hosts source ≡ parsed hosts
    → AreDistinct hosts × All IsExplicit hosts
unfolding parse_ssh_config_hosts
parse_ssh_config_hosts_aliases source hosts h =
    let lines = split_lines source in
    sound_hosts (parse_lines (parsed new_parse) lines) hosts
      (lines-IsSoundResult (parsed new_parse) lines (record {
        sound = record { agree = λ t. refl; distinct = tt; explicit = tt };
        pending = tt;
      }))
      h

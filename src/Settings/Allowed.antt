-- ===== src/Settings/Allowed.antt =====
-- Which origins `isOriginAllowed` of src/server/config.ts allows.
use mathlib.Core.List.{reverse-reverse, reverse-append}
use connexin.Prelude.{
  take-length, ends_with, ◌-◌, ◌≡◌, refl, sym, ap, ◌∙◌, Bool, true, false, not, ◌&&◌, ◌||◌, List,
  [], ◌∷◌, ◌++◌, reverse, Option, none, some, inl, inr, arith, Bool-cases, and-eq-true,
  append_assoc, any, codes, drop, take, length, length-append, has_unit, has_text, starts_with,
  text_eq, text_eq_refl, text_eq→eq, ==_iff,
}
use connexin.Utf8.{Text}
use connexin.Settings.Origins.{
  Url, UrlParser, split_wildcard, entry_allows, url_allowed, is_origin_allowed,
}

starts_with-drop :
    (text prefix : Text)
    → starts_with text prefix ≡ true
    → text ≡ prefix ++ drop (length prefix) text
starts_with-drop text [] h = refl
starts_with-drop [] (p ∷ ps) h = cc
starts_with-drop (x ∷ xs) (p ∷ ps) h =
    let (head, tail) = and-eq-true _ _ h in
    ap (λ c. c ∷ xs) ((==_iff x p).0 head) ∙ ap (◌∷◌ p) (starts_with-drop xs ps tail)

split_wildcard_joined :
    (entry scheme suffix : Text)
    → split_wildcard entry ≡ some (scheme, suffix)
    → entry ≡ scheme ++ (codes "//*." ++ suffix)
unfolding split_wildcard
split_wildcard_joined [] scheme suffix h = cc
split_wildcard_joined (c ∷ rest) scheme suffix h =
    elim (Bool-cases (starts_with (c ∷ rest) (codes "//*."))) [
      | inl here ↦ at_once (rw (split_wildcard, here) at h) here
      | inr later ↦
          step (split_wildcard rest) (λ a b f. split_wildcard_joined rest a b f)
            (rw (split_wildcard, later) at h)
    ]
  where
    at_once :
        ◌≡◌ {A = Option (Text × Text)} (some ([], drop 4 (c ∷ rest))) (some (scheme, suffix))
        → starts_with (c ∷ rest) (codes "//*.") ≡ true
        → (c ∷ rest) ≡ scheme ++ (codes "//*." ++ suffix)
    at_once e here =
        let none_before : [] ≡ scheme = cc in
        let behind : drop 4 (c ∷ rest) ≡ suffix = cc in
        starts_with-drop (c ∷ rest) (codes "//*.") here
        ∙ ap (λ t. codes "//*." ++ t) behind
        ∙ ap (λ t. t ++ (codes "//*." ++ suffix)) none_before

    step :
        (o : Option (Text × Text))
        → ((a b : Text)
            → ◌≡◌ {A = Option (Text × Text)} o (some (a, b))
            → rest ≡ a ++ (codes "//*." ++ b))
        → (elim o as (λ _. Option (Text × Text)) [
          | none ↦ none
          | some (before, behind) ↦ some (c ∷ before, behind)
        ])
          ≡ some (scheme, suffix)
        → (c ∷ rest) ≡ scheme ++ (codes "//*." ++ suffix)
    step none f e = cc
    step (some (before, behind)) f e =
        let same : c ∷ before ≡ scheme = cc in
        let same_behind : behind ≡ suffix = cc in
        ap (◌∷◌ c) (f before behind refl)
        ∙ ap (λ t. (c ∷ before) ++ (codes "//*." ++ t)) same_behind
        ∙ ap (λ t. t ++ (codes "//*." ++ suffix)) same

-- A text with this end is what `slice` cuts off it, and the end.
ends_with-take :
    (text suffix : Text)
    → ends_with text suffix ≡ true
    → text ≡ take (length text - length suffix) text ++ suffix
ends_with-take text suffix h =
    let front = reverse (drop (length (reverse suffix)) (reverse text)) in
    let joined : text ≡ front ++ suffix =
      sym (reverse-reverse text)
      ∙ ap reverse (starts_with-drop (reverse text) (reverse suffix) h)
      ∙ reverse-append (reverse suffix) (drop (length (reverse suffix)) (reverse text))
      ∙ ap (λ t. front ++ t) (reverse-reverse suffix) in
    let count : length text - length suffix ≡ length front =
      omega (arith, ap length joined, length-append front suffix) in
    let cut : take (length text - length suffix) text ≡ front =
      ap (λ n. take n text) count ∙ ap (take (length front)) joined ∙ take-length front suffix in
    joined ∙ ap (λ t. t ++ suffix) (sym cut)

-- The entry is the origin itself, or a wildcard for exactly one more label of the host.
pub data IsAllowedBy (u : Url) (entry : Text) : Type 0 where
  exactly : entry ≡ u.origin → IsAllowedBy u entry
  by_label :
      (label suffix : Text)
      → entry ≡ u.protocol ++ (codes "//*." ++ suffix)
      → u.host ≡ label ++ b'.' ∷ suffix
      → text_eq label [] ≡ false
      → has_unit b'.' label ≡ false
      → IsAllowedBy u entry

flip : {b : Bool} → not b ≡ true → b ≡ false
flip {b = true} h = cc
flip {b = false} h = refl

entry_allows-IsAllowedBy :
    (u : Url) (entry : Text) (o : Option (Text × Text))
    → split_wildcard entry ≡ o
    → entry_allows u entry o ≡ true
    → IsAllowedBy u entry
unfolding entry_allows
entry_allows-IsAllowedBy u entry none f h = exactly (text_eq→eq entry u.origin h)
entry_allows-IsAllowedBy u entry (some (scheme, suffix)) f h =
    let dotted = b'.' ∷ suffix in
    let label = take (length u.host - length dotted) u.host in
    let matches = text_eq (u.protocol ++ codes "//*.") (scheme ++ codes "//*.") in
    let (more, single) =
      and-eq-true (matches && ends_with u.host dotted && not (text_eq label []))
        (not (has_unit b'.' label)) h in
    let (more, nonempty) =
      and-eq-true (matches && ends_with u.host dotted) (not (text_eq label [])) more in
    let (protocol, ends) = and-eq-true matches (ends_with u.host dotted) more in
    let same = text_eq→eq (u.protocol ++ codes "//*.") (scheme ++ codes "//*.") protocol in
    by_label (take (length u.host - length (b'.' ∷ suffix)) u.host) suffix
      (split_wildcard_joined entry scheme suffix f
        ∙ sym (append_assoc scheme (codes "//*.") suffix)
        ∙ ap (λ t. t ++ suffix) (sym same)
        ∙ append_assoc u.protocol (codes "//*.") suffix)
      (ends_with-take u.host (b'.' ∷ suffix) ends) (flip nonempty) (flip single)

any_some :
    (u : Url) (entries : List Text)
    → any (λ entry. entry_allows u entry (split_wildcard entry)) entries ≡ true
    → (entry : Text) × (has_text entry entries ≡ true) × IsAllowedBy u entry
any_some u [] h = cc
any_some u (entry ∷ rest) h = elim (Bool-cases (entry_allows u entry (split_wildcard entry))) [
  | inl here ↦ (
    entry,
    rw (text_eq_refl entry) refl,
    entry_allows-IsAllowedBy u entry (split_wildcard entry) refl here,
  )
  | inr away ↦
      let (found, listed, allowed) = any_some u rest (rw (away) at h) in
      (found, or_true (text_eq entry found) listed, allowed)
]
  where
    or_true : (a : Bool) {b : Bool} → b ≡ true → (a || b) ≡ true
    or_true true h = refl
    or_true false h = h

-- An origin is allowed only if it parses, and an entry of the list is its normalized origin or a
-- wildcard of the same protocol; a wildcard stands for exactly one label, which is not empty and
-- has no dot.
pub is_origin_allowed-IsAllowedBy :
    (url : UrlParser) (allowed_origins : List Text) (request_origin : Text)
    → is_origin_allowed url allowed_origins request_origin ≡ true
    → (u : Url) × (url request_origin ≡ some u)
      × ((entry : Text) × (has_text entry allowed_origins ≡ true) × IsAllowedBy u entry)
unfolding is_origin_allowed
is_origin_allowed-IsAllowedBy url allowed_origins request_origin h =
    parsed_url (url request_origin) refl h
  where
    parsed_url :
        (o : Option Url)
        → url request_origin ≡ o
        → url_allowed allowed_origins o ≡ true
        → (u : Url) × (url request_origin ≡ some u)
          × ((entry : Text) × (has_text entry allowed_origins ≡ true) × IsAllowedBy u entry)
    parsed_url none f h = cc
    parsed_url (some u) f h = (u, f, any_some u allowed_origins h)

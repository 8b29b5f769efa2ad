-- ===== src/FilePolicy/Parts.antt =====
-- Splitting and joining in src/server/file-policy.ts.
use connexin.Prelude.{
  ℕ, ◌≡◌, refl, ap, ◌∙◌, Bool, true, false, List, [], ◌∷◌, ◌++◌, inl, inr, ◌==◌, Bool-cases, any,
  filter, All, is_control, or-false,
}
use connexin.Utf8.{Text}
use connexin.FilePolicy.{push_unit, split_slash, join_slash, slashes, is_kept}

-- No control character and no backslash; and no slash.
abbrev pub IsCleanUnit : ℕ → Type 0
IsCleanUnit c = (is_control c ≡ false) × ((c == 0x5c) ≡ false)

abbrev pub IsPartUnit : ℕ → Type 0
IsPartUnit c = (is_control c ≡ false) × ((c == 0x5c) ≡ false) × ((c == b'/') ≡ false)

module _ {ℓ} {A : Type ℓ} (p : A → Bool) where
  pub any-All : (xs : List A) → any p xs ≡ false → All (λ x. p x ≡ false) xs
  any-All [] h = tt
  any-All (x ∷ xs) h = let (a, b) = or-false h in (a, any-All xs b)

  pub All-any : (xs : List A) → All (λ x. p x ≡ false) xs → any p xs ≡ false
  All-any [] h = refl
  All-any (x ∷ xs) h = rw (h.0) (All-any xs h.1)

pub slashes-All : (xs : Text) → All (λ c. is_control c ≡ false) xs → All IsCleanUnit (slashes xs)
slashes-All [] h = tt
slashes-All (x ∷ xs) h = elim (Bool-cases (x == 0x5c)) [
  | inl backslash ↦ rw (backslash) ((refl, refl), slashes-All xs h.1)
  | inr other ↦ rw (other) ((h.0, other), slashes-All xs h.1)
]

push_unit-All :
    (c : ℕ) (parts : List Text)
    → IsPartUnit c
    → All (All IsPartUnit) parts
    → All (All IsPartUnit) (push_unit c parts)
unfolding push_unit
push_unit-All c [] h a = ((h, tt), tt)
push_unit-All c (part ∷ parts) h a = ((h, a.0), a.1)

pub split_slash-All : (xs : Text) → All IsCleanUnit xs → All (All IsPartUnit) (split_slash xs)
unfolding split_slash
split_slash-All [] h = (tt, tt)
split_slash-All (x ∷ xs) h = elim (Bool-cases (x == b'/')) [
  | inl slash ↦ rw (slash) (tt, split_slash-All xs h.1)
  | inr other ↦
      rw (other) (push_unit-All x (split_slash xs) (h.0.0, h.0.1, other) (split_slash-All xs h.1))
]

split_slash-part : (xs : Text) → All IsPartUnit xs → split_slash xs ≡ xs ∷ []
unfolding split_slash push_unit
split_slash-part [] h = refl
split_slash-part (x ∷ xs) h =
    let (_, _, no_slash) = h.0 in rw (no_slash) (ap (push_unit x) (split_slash-part xs h.1))

split_slash-append :
    (xs ys : Text) → All IsPartUnit xs → split_slash (xs ++ b'/' ∷ ys) ≡ xs ∷ split_slash ys
unfolding split_slash push_unit
split_slash-append [] ys h = refl
split_slash-append (x ∷ xs) ys h =
    let (_, _, no_slash) = h.0 in rw (no_slash) (ap (push_unit x) (split_slash-append xs ys h.1))

pub split_slash-join_slash :
    (part : Text) (parts : List Text)
    → All (All IsPartUnit) (part ∷ parts)
    → split_slash (join_slash (part ∷ parts)) ≡ part ∷ parts
unfolding join_slash
split_slash-join_slash part [] h = split_slash-part part h.0
split_slash-join_slash part (next ∷ rest) h =
    split_slash-append part (join_slash (next ∷ rest)) h.0
    ∙ ap (◌∷◌ part) (split_slash-join_slash next rest h.1)

All-append : (xs ys : Text) → All IsCleanUnit xs → All IsCleanUnit ys → All IsCleanUnit (xs ++ ys)
All-append [] ys h k = k
All-append (x ∷ xs) ys h k = (h.0, All-append xs ys h.1 k)

part_clean : (xs : Text) → All IsPartUnit xs → All IsCleanUnit xs
part_clean [] h = tt
part_clean (x ∷ xs) h = let (a, b, _) = h.0 in ((a, b), part_clean xs h.1)

pub join_slash-All :
    (parts : List Text) → All (All IsPartUnit) parts → All IsCleanUnit (join_slash parts)
unfolding join_slash
join_slash-All [] h = tt
join_slash-All (part ∷ []) h = part_clean part h.0
join_slash-All (part ∷ next ∷ rest) h =
    All-append part (b'/' ∷ join_slash (next ∷ rest)) (part_clean part h.0)
      ((refl, refl), join_slash-All (next ∷ rest) h.1)

-- Clean text has no control character and nothing to replace.
pub clean-slashes : (xs : Text) → All IsCleanUnit xs → slashes xs ≡ xs
clean-slashes [] h = refl
clean-slashes (x ∷ xs) h = rw (h.0.1) (ap (◌∷◌ x) (clean-slashes xs h.1))

pub clean-control : (xs : Text) → All IsCleanUnit xs → any is_control xs ≡ false
clean-control [] h = refl
clean-control (x ∷ xs) h = rw (h.0.0) (clean-control xs h.1)

module _ (P : Text → Type 0) where
  pub filter_kept-All : (parts : List Text) → All P parts → All P (filter is_kept parts)
  filter_kept-All [] h = tt
  filter_kept-All (part ∷ parts) h = elim (Bool-cases (is_kept part)) [
    | inl kept ↦ rw (kept) (h.0, filter_kept-All parts h.1)
    | inr away ↦ rw (away) (filter_kept-All parts h.1)
  ]

pub filter-kept : (parts : List Text) → All (λ x. is_kept x ≡ true) (filter is_kept parts)
filter-kept [] = tt
filter-kept (part ∷ parts) = elim (Bool-cases (is_kept part)) [
  | inl kept ↦ rw (kept) (kept, filter-kept parts)
  | inr away ↦ rw (away) (filter-kept parts)
]

pub filter_kept_id :
    (parts : List Text) → All (λ x. is_kept x ≡ true) parts → filter is_kept parts ≡ parts
filter_kept_id [] h = refl
filter_kept_id (part ∷ parts) h = rw (h.0) (ap (◌∷◌ part) (filter_kept_id parts h.1))

-- ===== src/FilePolicy/Normalized.antt =====
-- What `normalizeRelativePath` of src/server/file-policy.ts lets through.
use connexin.Prelude.{
  ℕ, ◌≤◌, ◌≡◌, refl, sym, ap, subst, ◌∙◌, Bool, true, false, ◌||◌, List, [], ◌∷◌, inl, inr, arith,
  ◌==◌, ltb, Bool-cases, any, filter, length, All, is_control, starts_with, codes, or-false,
  ltb-false→le,
}
use connexin.Utf8.{Text, utf8_byte_length}
use connexin.FilePolicy.{
  FilePathLimits, PathError, valid_path, path_error, split_slash, join_slash, slashes, is_kept,
  is_parent, or_dot, check_parts, normalize_relative_path,
}
use connexin.FilePolicy.Parts.{
  IsPartUnit, IsCleanUnit, any-All, slashes-All, split_slash-All, split_slash-join_slash,
  join_slash-All, clean-slashes, clean-control, filter_kept-All, filter-kept, filter_kept_id,
}

-- A name: not empty, not `.` and not `..`, without slashes, backslashes and control characters,
-- and within the limit of a component.
pub record IsName (limits : FilePathLimits) (part : Text) : Type 0 where
  pub kept : is_kept part ≡ true
  pub no_parent : is_parent part ≡ false
  pub units : All IsPartUnit part
  pub short : utf8_byte_length part ≤ limits.max_file_component_bytes

-- The root itself, or names joined by slashes, within the limits.
pub data IsConfined (limits : FilePathLimits) (path : Text) : Type 0 where
  root : path ≡ codes "." → IsConfined limits path
  below :
      (part : Text) (parts : List Text)
      → path ≡ join_slash (part ∷ parts)
      → All (IsName limits) (part ∷ parts)
      → length (part ∷ parts) ≤ limits.max_file_path_depth
      → utf8_byte_length path ≤ limits.max_file_path_bytes
      → IsConfined limits path

-- The tests of `check_parts` that an accepted path has passed.
record Passed (limits : FilePathLimits) (parts : List Text) (path : Text) : Type 0 where
  no_parents : any is_parent parts ≡ false
  shallow : length parts ≤ limits.max_file_path_depth
  all_short :
      any (λ part. ltb limits.max_file_component_bytes (utf8_byte_length part)) parts ≡ false
  short_path : utf8_byte_length (join_slash parts) ≤ limits.max_file_path_bytes
  same : or_dot (join_slash parts) ≡ path

check_parts-Passed :
    (parts : List Text) (limits : FilePathLimits) (path : Text)
    → check_parts parts limits ≡ valid_path path
    → Passed limits parts path
unfolding check_parts
check_parts-Passed parts limits path e = elim (Bool-cases (any is_parent parts)) [
  | inl a ↦ absurd (refuse (rw (a) at e))
  | inr a ↦ elim (Bool-cases (ltb limits.max_file_path_depth (length parts))) [
    | inl b ↦ absurd (refuse (rw (a, b) at e))
    | inr b ↦
        let too_long : Text → Bool =
          λ part. ltb limits.max_file_component_bytes (utf8_byte_length part) in
        elim (Bool-cases (any too_long parts)) [
          | inl c ↦ absurd (refuse (rw (a, b, c) at e))
          | inr c ↦
              elim (Bool-cases
                (ltb limits.max_file_path_bytes (utf8_byte_length (join_slash parts)))) [
                  | inl d ↦ absurd (refuse (rw (a, b, c, d) at e))
                  | inr d ↦ record {
                    no_parents = a;
                    shallow = ltb-false→le _ _ b;
                    all_short = c;
                    short_path = ltb-false→le _ _ d;
                    same = accept (rw (a, b, c, d) at e);
                  }
                ]
        ]
  ]
]
  where
    refuse : {x : PathError} → path_error x ≡ valid_path path → ⊥
    refuse h = cc

    accept : {x : Text} → valid_path x ≡ valid_path path → x ≡ path
    accept h = cc

names :
    (limits : FilePathLimits) (parts : List Text)
    → All (All IsPartUnit) parts
    → All (λ x. is_kept x ≡ true) parts
    → All (λ x. is_parent x ≡ false) parts
    → All (λ x. ltb limits.max_file_component_bytes (utf8_byte_length x) ≡ false) parts
    → All (IsName limits) parts
names limits [] u k p s = tt
names limits (part ∷ parts) u k p s = (
  record { kept = k.0; no_parent = p.0; units = u.0; short = ltb-false→le _ _ s.0 },
  names limits parts u.1 k.1 p.1 s.1,
)

no_zero : (c : ℕ) → is_control c ≡ false → (c == 0) ≡ false
no_zero c h = ground arith

clean-zero : (xs : Text) → All IsCleanUnit xs → any (λ c. c == 0) xs ≡ false
clean-zero [] h = refl
clean-zero (x ∷ xs) h = rw (no_zero x h.0.0) (clean-zero xs h.1)

-- A joined path starts with the first unit of its first name.
join_slash-head :
    (part : Text) (parts : List Text)
    → is_kept part ≡ true
    → All IsPartUnit part
    → (starts_with (join_slash (part ∷ parts)) (codes "/") ≡ false)
      × (or_dot (join_slash (part ∷ parts)) ≡ join_slash (part ∷ parts))
unfolding join_slash
join_slash-head [] parts k u = cc
join_slash-head (c ∷ part) [] k u = let (_, _, no_slash) = u.0 in (rw (no_slash) refl, refl)
join_slash-head (c ∷ part) (next ∷ rest) k u =
    let (_, _, no_slash) = u.0 in (rw (no_slash) refl, refl)

normalize-join_slash :
    (limits : FilePathLimits) (part : Text) (parts : List Text)
    → All (All IsPartUnit) (part ∷ parts)
    → All (λ x. is_kept x ≡ true) (part ∷ parts)
    → normalize_relative_path (join_slash (part ∷ parts)) limits ≡ check_parts (part ∷ parts) limits
unfolding normalize_relative_path
normalize-join_slash limits part parts u k =
    let path = join_slash (part ∷ parts) in
    let clean = join_slash-All (part ∷ parts) u in
    rw
      (
        clean-zero path clean,
        clean-control path clean,
        clean-slashes path clean,
        (join_slash-head part parts k.0 u.0).0,
        split_slash-join_slash part parts u,
      )
      (ap (λ ps. check_parts ps limits) (filter_kept_id (part ∷ parts) k))

normalize-dot :
    (limits : FilePathLimits) → normalize_relative_path (codes ".") limits ≡ check_parts [] limits
unfolding normalize_relative_path split_slash
normalize-dot limits = refl

checked :
    (parts : List Text) (limits : FilePathLimits) (path : Text)
    → All (All IsPartUnit) parts
    → All (λ x. is_kept x ≡ true) parts
    → check_parts parts limits ≡ valid_path path
    → IsConfined limits path × (normalize_relative_path path limits ≡ valid_path path)
unfolding join_slash
checked [] limits path u k e =
    let p = check_parts-Passed [] limits path e in
    (
      root (sym p.same),
      subst (λ x. normalize_relative_path x limits ≡ valid_path path) p.same
          (normalize-dot limits ∙ e),
    )
checked (part ∷ parts) limits path u k e =
    let p = check_parts-Passed (part ∷ parts) limits path e in
    let same : join_slash (part ∷ parts) ≡ path =
      sym (join_slash-head part parts k.0 u.0).1 ∙ p.same in
    (
      below part parts (sym same)
          (names limits (part ∷ parts) u k (any-All is_parent (part ∷ parts) p.no_parents) (
            any-All (λ x. ltb limits.max_file_component_bytes (utf8_byte_length x)) (part ∷ parts)
              p.all_short))
          p.shallow
          (subst (λ x. utf8_byte_length x ≤ limits.max_file_path_bytes) same p.short_path),
      subst (λ x. normalize_relative_path x limits ≡ valid_path path) same
          (normalize-join_slash limits part parts u k ∙ e),
    )

-- A path that is let through is the root, or names joined by slashes within all limits, none of
-- which is empty, `.` or `..` or has a slash, a backslash or a control character; and normalizing
-- it again changes nothing.
pub normalize_relative_path-IsConfined :
    (value : Text) (limits : FilePathLimits) (path : Text)
    → normalize_relative_path value limits ≡ valid_path path
    → IsConfined limits path × (normalize_relative_path path limits ≡ valid_path path)
unfolding normalize_relative_path
normalize_relative_path-IsConfined value limits path e =
    elim (Bool-cases (any (λ c. c == 0) value || any is_control value)) [
      | inl bad ↦ absurd (refuse (rw (bad) at e))
      | inr plain ↦ elim (Bool-cases (starts_with (slashes value) (codes "/"))) [
        | inl absolute ↦ absurd (refuse (rw (plain, absolute) at e))
        | inr relative ↦
            let units =
              split_slash-All (slashes value)
                (slashes-All value (any-All is_control value (or-false plain).1)) in
            checked (filter is_kept (split_slash (slashes value))) limits path
              (filter_kept-All (All IsPartUnit) (split_slash (slashes value)) units)
              (filter-kept (split_slash (slashes value))) (rw (plain, relative) at e)
      ]
    ]
  where
    refuse : path_error PathError.invalid_path ≡ valid_path path → ⊥
    refuse h = cc

-- ===== src/FilePolicy.antt =====
-- src/server/file-policy.ts: which relative paths a file operation may name.
pub mod Parts
pub mod Posix
pub mod Normalized
use connexin.Prelude.{
  ℕ, Bool, true, false, not, ◌&&◌, ◌||◌, List, [], ◌∷◌, ◌++◌, map, Option, none, some, ◌==◌, ltb,
  if◌then◌else◌, any, filter, length, is_control, starts_with, text_eq, codes,
}
use connexin.Utf8.{Text, utf8_byte_length}

pub record FilePathLimits : Type 0 where
  pub max_file_path_bytes : ℕ
  pub max_file_component_bytes : ℕ
  pub max_file_path_depth : ℕ

pub data PathError : Type 0 where
  invalid_path path_outside_root path_too_deep component_too_long path_too_long : PathError

pub data PathResult : Type 0 where
  valid_path : Text → PathResult
  path_error : PathError → PathResult

push_unit : ℕ → List Text → List Text
push_unit c [] = (c ∷ []) ∷ []
push_unit c (part ∷ parts) = (c ∷ part) ∷ parts

-- `raw.split("/")`.
pub split_slash : Text → List Text
unfolding push_unit
split_slash [] = [] ∷ []
split_slash (c ∷ rest) =
    let parts = split_slash rest in if c == b'/' then [] ∷ parts else push_unit c parts

-- `parts.join("/")`.
pub join_slash : List Text → Text
join_slash [] = []
join_slash (part ∷ []) = part
join_slash (part ∷ next ∷ rest) = part ++ b'/' ∷ join_slash (next ∷ rest)

abbrev pub is_kept : Text → Bool
is_kept [] = false
is_kept (c ∷ part) = not (text_eq (c ∷ part) (codes "."))

abbrev pub is_parent : Text → Bool
is_parent part = text_eq part (codes "..")

-- `normalized || "."`.
abbrev pub or_dot : Text → Text
or_dot [] = codes "."
or_dot (c ∷ rest) = c ∷ rest

unfoldable pub check_parts : List Text → FilePathLimits → PathResult
unfolding join_slash utf8_byte_length
check_parts parts limits =
    if any is_parent parts
    then path_error path_outside_root
    else if ltb limits.max_file_path_depth (length parts)
    then path_error path_too_deep
    else if any (λ part. ltb limits.max_file_component_bytes (utf8_byte_length part)) parts
    then path_error component_too_long
    else if ltb limits.max_file_path_bytes (utf8_byte_length (join_slash parts))
    then path_error path_too_long
    else valid_path (or_dot (join_slash parts))

-- `value.replaceAll("\\", "/")`.
abbrev pub slashes : Text → Text
slashes = map (λ c. if c == 0x5c then b'/' else c)

-- The first test, for a zero, is contained in the one for control characters.
unfoldable pub normalize_relative_path : Text → FilePathLimits → PathResult
unfolding split_slash check_parts
normalize_relative_path value limits =
    if any (λ c. c == 0) value || any is_control value
    then path_error invalid_path
    else if starts_with (slashes value) (codes "/")
    then path_error invalid_path
    else check_parts (filter is_kept (split_slash (slashes value))) limits

-- What `assertCanonicalWithin` throws.
unfoldable pub assert_canonical_within : (root target : Text) → Option PathError
assert_canonical_within root target =
    if not (text_eq target root) && not (starts_with target (root ++ b'/' ∷ []))
    then some path_outside_root
    else none

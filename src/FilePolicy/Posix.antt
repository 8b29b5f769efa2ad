-- ===== src/FilePolicy/Posix.antt =====
-- `posix.join`, `posix.normalize`, `posix.basename` and `posix.dirname` of node:path, on the two
-- arguments that the program gives, and the paths that src/server/file-policy.ts builds with them.
use connexin.Prelude.{
  Bool, not, ◌&&◌, ◌||◌, List, [], ◌∷◌, ◌++◌, reverse, ◌==◌, if◌then◌else◌, starts_with, text_eq,
  codes, length,
}
use connexin.Utf8.{Text}
use connexin.FilePolicy.{
  FilePathLimits, PathResult, valid_path, path_error, split_slash, join_slash,
  normalize_relative_path,
}

-- `..` takes the last part away, where there is one that is not `..` itself.
abbrev up_one : Bool → List Text → List Text
up_one above [] = if above then codes ".." ∷ [] else []
up_one above (last ∷ kept) =
    if text_eq last (codes "..")
    then (if above then codes ".." ∷ last ∷ kept else last ∷ kept)
    else kept

-- The parts that `normalize` keeps, last one first.
keep_parts : (above : Bool) → (kept parts : List Text) → List Text
keep_parts above kept [] = kept
keep_parts above kept (part ∷ parts) =
    keep_parts above
      (if text_eq part [] || text_eq part (codes ".")
        then kept
        else if text_eq part (codes "..")
        then up_one above kept
        else part ∷ kept)
      parts

abbrev dot_unless_absolute : Bool → Bool → Text → Text
dot_unless_absolute absolute trailing [] =
    if absolute then [] else if trailing then codes "./" else codes "."
dot_unless_absolute absolute trailing (c ∷ rest) =
    if trailing then (c ∷ rest) ++ codes "/" else c ∷ rest

abbrev normalized_text : Text → Text
normalized_text path =
    let absolute = starts_with path (codes "/") in
    let trailing = starts_with (reverse path) (codes "/") in
    let kept = join_slash (reverse (keep_parts (not absolute) [] (split_slash path))) in
    let body = dot_unless_absolute absolute trailing kept in if absolute then b'/' ∷ body else body

unfoldable pub posix_normalize : Text → Text
unfolding keep_parts join_slash split_slash
posix_normalize [] = codes "."
posix_normalize (c ∷ rest) = normalized_text (c ∷ rest)

unfoldable pub posix_join : Text → Text → Text
unfolding posix_normalize
posix_join [] [] = codes "."
posix_join [] (d ∷ b) = posix_normalize (d ∷ b)
posix_join (c ∷ a) [] = posix_normalize (c ∷ a)
posix_join (c ∷ a) (d ∷ b) = posix_normalize ((c ∷ a) ++ b'/' ∷ (d ∷ b))

abbrev skip_slashes : Text → Text
skip_slashes [] = []
skip_slashes (c ∷ rest) = if c == b'/' then skip_slashes rest else c ∷ rest

abbrev until_slash : Text → Text
until_slash [] = []
until_slash (c ∷ rest) = if c == b'/' then [] else c ∷ until_slash rest

abbrev behind_slash : Text → Text
behind_slash [] = []
behind_slash (c ∷ rest) = if c == b'/' then rest else behind_slash rest

unfoldable pub posix_basename : Text → Text
posix_basename path = reverse (until_slash (skip_slashes (reverse path)))

abbrev dirname_or : Bool → Text → Text
dirname_or rooted [] = if rooted then codes "/" else codes "."
dirname_or rooted (c ∷ rest) =
    if rooted && (length (c ∷ rest) == 1) then codes "//" else reverse (c ∷ rest)

unfoldable pub posix_dirname : Text → Text
posix_dirname path =
    dirname_or (starts_with path (codes "/")) (behind_slash (skip_slashes (reverse path)))

abbrev join_root : Text → PathResult → PathResult
join_root root (path_error e) = path_error e
join_root root (valid_path path) =
    valid_path (if text_eq path (codes ".") then root else posix_join root path)

unfoldable pub confined_remote_path : (root relative : Text) → FilePathLimits → PathResult
unfolding posix_join
confined_remote_path root relative limits = join_root root (normalize_relative_path relative limits)

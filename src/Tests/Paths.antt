-- ===== src/Tests/Paths.antt =====
-- The theorem on relative paths at a concrete path.
use connexin.Prelude.{◌≡◌, refl, codes}
use connexin.FilePolicy.{FilePathLimits, valid_path, normalize_relative_path}
use connexin.FilePolicy.Posix.{posix_join, posix_basename, posix_dirname}
use connexin.FilePolicy.Normalized.{IsConfined, normalize_relative_path-IsConfined}

abbrev small_limits : FilePathLimits
small_limits = record {
  max_file_path_bytes = 20;
  max_file_component_bytes = 8;
  max_file_path_depth = 3;
}

accepted : normalize_relative_path (codes "a//./b\\c") small_limits ≡ valid_path (codes "a/b/c")
unfolding normalize_relative_path
accepted = refl

normalize_relative_path-IsConfined_example :
    IsConfined small_limits (codes "a/b/c")
    × (normalize_relative_path (codes "a/b/c") small_limits ≡ valid_path (codes "a/b/c"))
normalize_relative_path-IsConfined_example =
    normalize_relative_path-IsConfined (codes "a//./b\\c") small_limits (codes "a/b/c") accepted

joined : posix_join (codes "/srv/./a/") (codes "../b") ≡ codes "/srv/b"
unfolding posix_join
joined = refl

named : (posix_basename (codes "a/b/c") ≡ codes "c") × (posix_dirname (codes "a/b/c") ≡ codes "a/b")
unfolding posix_basename posix_dirname
named = (refl, refl)

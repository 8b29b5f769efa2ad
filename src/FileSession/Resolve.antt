-- ===== src/FileSession/Resolve.antt =====
-- Finding a remote file in src/server/file-session.ts.
use connexin.Prelude.{
  ℕ, Bool, true, false, not, ◌&&◌, Option, none, some, if◌then◌else◌, codes, text_eq,
}
use connexin.Utf8.{Text}
use connexin.FilePolicy.{
  PathError, PathResult, valid_path, path_error, invalid_path, path_outside_root, path_too_deep,
  component_too_long, path_too_long, normalize_relative_path, assert_canonical_within,
}
use connexin.FilePolicy.Posix.{posix_join, posix_basename, posix_dirname, confined_remote_path}
use connexin.FileSession.Entry.{RemoteFileEntry, is_safe_entry, fingerprint}
use connexin.FileSession.Run.{
  FileWorld, done, threw, M, pure, throw, ◌>>=◌, catch, refuse_if, timed, lstat_request,
  realpath_request,
}

-- The messages of src/server/file-policy.ts.
abbrev message_of : PathError → Text
message_of invalid_path = codes "invalid_path"
message_of path_outside_root = codes "path_outside_root"
message_of path_too_deep = codes "path_too_deep"
message_of component_too_long = codes "component_too_long"
message_of path_too_long = codes "path_too_long"

abbrev pub path_or_throw : PathResult → M Text
path_or_throw (valid_path path) = pure path
path_or_throw (path_error e) = throw (message_of e)

abbrev pub none_or_throw : Option PathError → M Bool
none_or_throw none = pure true
none_or_throw (some e) = throw (message_of e)

abbrev pub session_root : M Text
session_root r = (done r.session.root, r)

-- `assertCanonicalWithin(this.root, path)`.
unfoldable pub check_within : Text → M Bool
unfolding assert_canonical_within
check_within path r = none_or_throw (assert_canonical_within r.session.root path) r

abbrev pub safe_or_throw : RemoteFileEntry → M RemoteFileEntry
safe_or_throw e r = if is_safe_entry e then (done e, r) else (threw (codes "invalid_metadata"), r)

unfoldable pub lstat : FileWorld → ℕ → Text → M RemoteFileEntry
unfolding timed is_safe_entry
lstat w h path = timed w h false (lstat_request path) (λ n. w.on_lstat n path) >>= safe_or_throw

abbrev pub none_if_missing : Text → M (Option RemoteFileEntry)
none_if_missing message r =
    if text_eq message (codes "not_found") then (done none, r) else (threw message, r)

unfoldable pub optional_lstat : FileWorld → ℕ → Text → M (Option RemoteFileEntry)
unfolding lstat
optional_lstat w h path = catch (lstat w h path >>= λ e. pure (some e)) none_if_missing

-- `realpath`, with the check that the answer is within the root.
unfoldable pub canonical_path : FileWorld → ℕ → Text → M Text
unfolding timed check_within
canonical_path w h candidate = do
  path ← timed w h false (realpath_request candidate) (λ n. w.on_realpath n candidate)
  _ ← check_within path
  pure path

pub record ResolvedContent : Type 0 where
  pub canonical : Text
  pub entry : RemoteFileEntry

unfoldable pub resolve_content : FileWorld → ℕ → Text → M ResolvedContent
unfolding canonical_path lstat confined_remote_path
resolve_content w h relative = do
  root ← session_root
  candidate ← path_or_throw (confined_remote_path root relative w.config.limits)
  canonical ← canonical_path w h candidate
  entry ← lstat w h canonical
  pure (record { canonical = canonical; entry = entry })

pub record ResolvedEntry : Type 0 where
  pub path : Text
  pub entry : Option RemoteFileEntry

abbrev missing : Option RemoteFileEntry → Bool
missing none = true
missing (some e) = false

unfoldable pub resolve_entry : FileWorld → ℕ → Text → (allow_missing : Bool) → M ResolvedEntry
unfolding canonical_path optional_lstat confined_remote_path normalize_relative_path
resolve_entry w h relative allow_missing = do
  normalized ← path_or_throw (normalize_relative_path relative w.config.limits)
  _ ← refuse_if (text_eq normalized (codes ".")) (codes "root_mutation_denied")
  root ← session_root
  candidate ← path_or_throw (confined_remote_path root (posix_dirname normalized) w.config.limits)
  parent ← canonical_path w h candidate
  entry ← optional_lstat w h (posix_join parent (posix_basename normalized))
  _ ← refuse_if (missing entry && not allow_missing) (codes "not_found")
  pure (record { path = posix_join parent (posix_basename normalized); entry = entry })

-- `resolveEntryByCanonical`, which is called where the entry may be missing.
unfoldable pub resolve_entry_by_canonical : FileWorld → ℕ → Text → M (Option RemoteFileEntry)
unfolding check_within optional_lstat
resolve_entry_by_canonical w h path = do
  _ ← check_within (posix_dirname path)
  optional_lstat w h path

-- `requireFingerprint`.
unfoldable pub require_fingerprint : FileWorld → RemoteFileEntry → Text → M Bool
unfolding fingerprint
require_fingerprint w entry expected =
    refuse_if (not (text_eq (fingerprint w.hash entry) expected)) (codes "file_changed")

-- ===== src/FileSession/Prepare.antt =====
-- `prepare` of src/server/file-session.ts: the lease for an operation that was confirmed on the
-- metadata that the user saw.
use connexin.Prelude.{
  ℕ, ◌+◌, Bool, true, false, not, ◌&&◌, ◌||◌, Option, none, some, leb, if◌then◌else◌, codes,
  text_eq, length,
}
use connexin.Utf8.{Text}
use connexin.Numbers.{JsNumber, is_natural, js_eq, exceeds}
use connexin.FileSession.Entry.{RemoteFileEntry, fingerprint}
use connexin.FileSession.Lease.{
  PrepareFileOperation, mkdir, rename, delete, upload, download, Grant, mkdir_grant, rename_grant,
  delete_grant, upload_grant, download_grant, Lease, Leases, set_lease, prune_expired_leases,
}
use connexin.FileSession.Run.{
  FileWorld, FileRun, done, threw, M, pure, throw, ◌>>=◌, refuse_if, update_session, get_helper,
}
use connexin.FileSession.Resolve.{resolve_entry, resolve_content, require_fingerprint}

-- `entry?.kind === kind`.
abbrev pub has_kind : Text → Option RemoteFileEntry → Bool
has_kind kind none = false
has_kind kind (some e) = text_eq e.kind kind

abbrev pub is_there : Option RemoteFileEntry → Bool
is_there none = false
is_there (some e) = true

abbrev pub text_is : Option Text → Text → Bool
text_is none t = false
text_is (some s) t = text_eq s t

-- `entry && expected !== fingerprint(entry)`.
abbrev changed : FileWorld → Option RemoteFileEntry → Option Text → Bool
changed w none expected = false
changed w (some e) expected = not (text_is expected (fingerprint w.hash e))

abbrev pub fingerprint_of : FileWorld → Option RemoteFileEntry → Option Text
fingerprint_of w none = none
fingerprint_of w (some e) = some (fingerprint w.hash e)

-- `requireFingerprint` on an entry that may be missing, which is no safe entry.
abbrev require_entry : FileWorld → Option RemoteFileEntry → Text → M Bool
require_entry w none expected = throw (codes "invalid_metadata")
require_entry w (some e) expected = require_fingerprint w e expected

unfoldable pub prepare_mkdir : FileWorld → ℕ → Text → M Grant
unfolding resolve_entry
prepare_mkdir w h path = do
  target ← resolve_entry w h path true
  _ ← refuse_if (is_there target.entry) (codes "already_exists")
  pure (mkdir_grant target.path)

unfoldable pub prepare_rename :
    FileWorld → ℕ → (from to expected : Text) → Bool → Option Text → M Grant
unfolding resolve_entry
prepare_rename w h from to expected overwrite target_fingerprint = do
  source ← resolve_entry w h from false
  _ ← require_entry w source.entry expected
  target ← resolve_entry w h to true
  _ ← refuse_if (has_kind (codes "symlink") target.entry) (codes "symlink_overwrite_denied")
  _ ← refuse_if (is_there target.entry && not overwrite) (codes "already_exists")
  _ ← refuse_if (changed w target.entry target_fingerprint) (codes "file_changed")
  pure (rename_grant source.path target.path expected overwrite (fingerprint_of w target.entry))

unfoldable pub prepare_delete : FileWorld → ℕ → (path expected kind : Text) → M Grant
unfolding resolve_entry
prepare_delete w h path expected kind = do
  target ← resolve_entry w h path false
  _ ← require_entry w target.entry expected
  _ ← refuse_if (not (has_kind kind target.entry)) (codes "file_changed")
  pure (delete_grant target.path expected kind)

unfoldable pub prepare_upload : FileWorld → ℕ → Text → JsNumber → Bool → Option Text → M Grant
unfolding resolve_entry
prepare_upload w h path bytes overwrite expected = do
  _ ←
      refuse_if (not (is_natural bytes) || exceeds bytes w.config.max_transfer_bytes)
        (codes "too_large")
  target ← resolve_entry w h path true
  _ ←
      refuse_if
        (has_kind (codes "symlink") target.entry || has_kind (codes "directory") target.entry)
        (codes "unsafe_target")
  _ ← refuse_if (is_there target.entry && not overwrite) (codes "already_exists")
  _ ← refuse_if (changed w target.entry expected) (codes "file_changed")
  pure (upload_grant target.path bytes overwrite (fingerprint_of w target.entry))

unfoldable pub prepare_download : FileWorld → ℕ → (path expected : Text) → JsNumber → M Grant
unfolding resolve_content
prepare_download w h path expected bytes = do
  target ← resolve_content w h path
  _ ← refuse_if (not (text_eq target.entry.kind (codes "file"))) (codes "not_regular_file")
  _ ← require_fingerprint w target.entry expected
  _ ←
      refuse_if
        (not (js_eq target.entry.size bytes) || exceeds bytes w.config.max_embedded_download_bytes)
        (codes "too_large")
  pure (download_grant target.canonical expected bytes)

unfoldable pub prepare_grant : FileWorld → ℕ → PrepareFileOperation → M Grant
unfolding prepare_mkdir prepare_rename prepare_delete prepare_upload prepare_download
prepare_grant w h (mkdir path) = prepare_mkdir w h path
prepare_grant w h (rename from to expected overwrite target) =
    prepare_rename w h from to expected overwrite target
prepare_grant w h (delete path expected kind) = prepare_delete w h path expected kind
prepare_grant w h (upload path bytes overwrite expected) =
    prepare_upload w h path bytes overwrite expected
prepare_grant w h (download path expected bytes) = prepare_download w h path expected bytes

abbrev pub with_leases : Leases → FileRun → FileRun
with_leases leases r = update_session (λ s. record s { leases = leases }) r

abbrev pub check_limit : FileWorld → M Bool
check_limit w r =
    if leb w.config.max_file_operation_leases (length r.session.leases)
    then (threw (codes "lease_limit"), r)
    else (done true, r)

-- The tests before the first wait.
unfoldable pub begin_prepare : FileWorld → M Bool
unfolding prune_expired_leases
begin_prepare w r =
    if not w.config.file_root_confinement_enforced
    then (threw (codes "file_root_confinement_not_enforced"), r)
    else check_limit w (with_leases (prune_expired_leases w.now r.session.leases) r)

-- The lease is stored after the last wait.
unfoldable pub end_prepare : FileWorld → Grant → M Text
unfolding set_lease
end_prepare w grant r =
    let lease : Lease = record {
      grant = grant;
      expires_at = w.later + w.config.file_operation_lease_ttl_ms;
    } in
    (done w.fresh_token, with_leases (set_lease w.fresh_token lease r.session.leases) r)

unfoldable pub prepare : FileWorld → PrepareFileOperation → M Text
unfolding begin_prepare get_helper prepare_grant end_prepare
prepare w input = do
  _ ← begin_prepare w
  h ← get_helper w
  grant ← prepare_grant w h input
  end_prepare w grant

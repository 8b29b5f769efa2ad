-- ===== src/FileSession/Redeem.antt =====
-- `mutate`, `upload` and `downloadBuffer` of src/server/file-session.ts: each redeems a lease, and
-- compares the file with what the user confirmed.
use connexin.Prelude.{
  ℕ, ◌+◌, Bool, true, false, not, ◌||◌, List, [], ◌∷◌, Option, none, some, ltb, if◌then◌else◌,
  codes, text_eq, length, flatten,
}
use connexin.Utf8.{Text}
use connexin.Numbers.{JsNumber, natural, minus_suc, no_safe_integer, js_eq, exceeds}
use connexin.FileSession.Entry.{RemoteFileEntry, fingerprint}
use connexin.FileSession.Lease.{
  LeaseKind, to_upload, to_download, Grant, mkdir_grant, rename_grant, delete_grant, upload_grant,
  download_grant, consume_lease,
}
use connexin.FileSession.Run.{
  FileWorld, Outcome, threw, M, pure, throw, ◌>>=◌, catch, refuse_if, effect, helper_drained, send,
  waited, timed, poison, get_helper, is_helper_loss, mkdir_request, rename_request, remove_request,
  upload_request, download_request,
}
use connexin.FileSession.Resolve.{
  lstat, optional_lstat, resolve_entry_by_canonical, require_fingerprint,
}
use connexin.FileSession.Prepare.{has_kind, is_there, text_is, fingerprint_of}

abbrev pub grant_or_throw : Option Grant → M Grant
grant_or_throw none = throw (codes "invalid_lease")
grant_or_throw (some grant) = pure grant

-- `consumeLease`.
unfoldable pub consume : FileWorld → Text → LeaseKind → M Grant
unfolding consume_lease
consume w token kind r =
    let (leases, grant) = consume_lease kind token w.now r.session.leases in
    grant_or_throw grant (record r { session = record r.session { leases = leases } })

abbrev pub same_text : Option Text → Option Text → Bool
same_text none none = true
same_text none (some t) = false
same_text (some s) none = false
same_text (some s) (some t) = text_eq s t

-- `target?.kind === "symlink" || (target && fingerprint(target) !== expected)`.
abbrev pub target_changed : FileWorld → Option RemoteFileEntry → Option Text → Bool
target_changed w none expected = false
target_changed w (some e) expected =
    text_eq e.kind (codes "symlink") || not (text_is expected (fingerprint w.hash e))

-- The body of the `try` of `mutate`; it is given no other grant.
unfoldable pub apply_grant : FileWorld → ℕ → Grant → M Bool
unfolding resolve_entry_by_canonical lstat optional_lstat require_fingerprint timed
apply_grant w h (mkdir_grant path) = do
  current ← resolve_entry_by_canonical w h path
  _ ← refuse_if (is_there current) (codes "file_changed")
  timed w h true (mkdir_request path) w.on_mutation
apply_grant w h (rename_grant from to source_fingerprint overwrite target_fingerprint) = do
  source ← lstat w h from
  _ ← require_fingerprint w source source_fingerprint
  target ← optional_lstat w h to
  _ ← refuse_if (target_changed w target target_fingerprint) (codes "file_changed")
  timed w h true (rename_request from to overwrite) w.on_mutation
apply_grant w h (delete_grant path fingerprint kind) = do
  current ← lstat w h path
  _ ← require_fingerprint w current fingerprint
  _ ← refuse_if (not (text_eq current.kind kind)) (codes "file_changed")
  timed w h true (remove_request path (text_eq kind (codes "directory"))) w.on_mutation
apply_grant w h (upload_grant path bytes overwrite target) = throw (codes "invalid_lease")
apply_grant w h (download_grant path fingerprint bytes) = throw (codes "invalid_lease")

abbrev pub unknown_if_lost : {A : Type 0} → Text → M A
unknown_if_lost message r =
    if is_helper_loss message then (threw (codes "outcome_unknown"), r) else (threw message, r)

unfoldable pub mutate : FileWorld → Text → LeaseKind → M Bool
unfolding consume get_helper apply_grant is_helper_loss
mutate w token kind = do
  grant ← consume w token kind
  h ← get_helper w
  catch (apply_grant w h grant) unknown_if_lost

-- The `finally` of `withTransfer`: a helper is not used again after an unclean transfer.
abbrev pub recycle : {A : Type 0} → ℕ → Text → M A
recycle h message r = (threw message, effect (helper_drained h) (poison h r))

-- `withTransfer`, once the transfers before it are over.
unfoldable pub with_transfer : {A : Type 0} → FileWorld → (ℕ → M A) → M A
unfolding get_helper poison
with_transfer w operation = do
  _ ← refuse_if w.aborted_before (codes "aborted")
  h ← get_helper w
  catch (operation h) (recycle h)

abbrev transfer_unknown : {A : Type 0} → FileWorld → Text → M A
transfer_unknown w message r =
    if w.aborted_during || is_helper_loss message
    then (threw (codes "outcome_unknown"), r)
    else (threw message, r)

abbrev pub transfer : FileWorld → (ℕ → Outcome JsNumber) → M JsNumber
transfer w answer r = let n = length r.sent in (answer n, waited w n r)

unfoldable pub upload_granted : FileWorld → ℕ → Text → JsNumber → Bool → Option Text → M JsNumber
unfolding optional_lstat is_helper_loss
upload_granted w h path bytes overwrite target_fingerprint = do
  current ← optional_lstat w h path
  _ ←
      refuse_if
        (has_kind (codes "symlink") current
          || not (same_text (fingerprint_of w current) target_fingerprint))
        (codes "file_changed")
  catch
      (do
        sent ← λ r. transfer w w.on_transfer (send (upload_request path bytes overwrite) r)
        _ ← refuse_if (not (js_eq sent bytes)) (codes "transfer_size_mismatch")
        pure sent)
      (transfer_unknown w)

unfoldable pub upload_with : FileWorld → JsNumber → Grant → M JsNumber
unfolding with_transfer upload_granted
upload_with w bytes (upload_grant path granted overwrite target) =
    if not (js_eq bytes granted)
    then throw (codes "invalid_lease")
    else with_transfer w (λ h. upload_granted w h path bytes overwrite target)
upload_with w bytes other = throw (codes "invalid_lease")

unfoldable pub upload_file : FileWorld → Text → JsNumber → M JsNumber
unfolding consume upload_with
upload_file w token bytes = do grant ← consume w token to_upload; upload_with w bytes grant

-- `actual > lease.bytes`.
abbrev pub over : ℕ → JsNumber → Bool
over actual (natural granted) = ltb granted actual
over actual (minus_suc granted) = true
over actual no_safe_integer = false

-- The listener on the sink: what it has counted, and the chunks that it has kept.
unfoldable pub collect : JsNumber → ℕ → List Text → ℕ × List Text
collect granted actual [] = (actual, [])
collect granted actual (chunk ∷ chunks) =
    let now = actual + length chunk in
    let (total, kept) = collect granted now chunks in
    (total, if over now granted then kept else chunk ∷ kept)

abbrev pub download_changed : FileWorld → RemoteFileEntry → JsNumber → Bool
download_changed w current bytes =
    not (text_eq current.kind (codes "file"))
    || not (js_eq current.size bytes)
    || exceeds current.size w.config.max_embedded_download_bytes

unfoldable pub download_granted : FileWorld → ℕ → (path fingerprint : Text) → JsNumber → M Text
unfolding lstat require_fingerprint collect
download_granted w h path fingerprint bytes = do
  current ← lstat w h path
  _ ← require_fingerprint w current fingerprint
  _ ← refuse_if (download_changed w current bytes) (codes "file_changed")
  reported ← λ r. transfer w w.on_transfer (send (download_request path bytes) r)
  let (actual, kept) = collect bytes 0 w.delivered
  _ ←
      refuse_if (not (js_eq reported bytes) || not (js_eq (natural actual) bytes))
        (codes "transfer_size_mismatch")
  pure (flatten kept)

unfoldable pub download_with : FileWorld → Grant → M Text
unfolding with_transfer download_granted
download_with w (download_grant path fingerprint bytes) =
    with_transfer w (λ h. download_granted w h path fingerprint bytes)
download_with w other = throw (codes "invalid_lease")

unfoldable pub download_buffer : FileWorld → Text → M Text
unfolding consume download_with
download_buffer w token = do grant ← consume w token to_download; download_with w grant

-- ===== src/FileSession/Listing.antt =====
-- `list` of src/server/file-session.ts.
pub mod Limits
use connexin.Prelude.{
  ℕ, suc, ◌+◌, Bool, true, false, not, ◌&&◌, ◌||◌, List, [], ◌∷◌, ◌++◌, Option, none, some, ltb,
  if◌then◌else◌, codes, text_eq, length,
}
use connexin.Utf8.{Text}
use connexin.Numbers.{JsNumber, natural, minus_suc}
use connexin.FileSession.Entry.{RemoteFileEntry, fingerprint}
use connexin.FileSession.Run.{
  FileWorld, FileRun, Outcome, done, threw, Reply, M, pure, ◌>>=◌, ◌>>◌, then_run, catch, or_run,
  refuse_if, timed, poison, get_helper, is_helper_loss, list_request,
}
use connexin.FileSession.Resolve.{ResolvedContent, resolve_content, safe_or_throw}

pub record PublicFileEntry : Type 0 where
  pub entry : RemoteFileEntry
  pub path : Text
  pub fingerprint : Text

-- What only `list` asks from outside: the answers to the request, the bytes of an entry as JSON,
-- `localeCompare` as a number, `sort` on a comparison, which the engine chooses where the
-- comparison is inconsistent, and the helper of a second call of the factory.
pub record ListWorld : Type 0 where
  pub on_list : ℕ → Reply (List RemoteFileEntry)
  pub json_bytes : RemoteFileEntry → ℕ
  pub locale_compare : Text → Text → JsNumber
  pub sort :
      (PublicFileEntry → PublicFileEntry → JsNumber) → List PublicFileEntry → List PublicFileEntry
  pub respawned : Outcome ℕ

-- The comparison that `sort` is given.
unfoldable pub compare_entries :
    (Text → Text → JsNumber) → PublicFileEntry → PublicFileEntry → JsNumber
compare_entries locale_compare a b =
    if text_eq a.entry.kind b.entry.kind
    then locale_compare a.entry.name b.entry.name
    else if text_eq a.entry.kind (codes "directory")
    then minus_suc 0
    else natural 1

abbrev public_path : Text → Text → Text
public_path relative name = if text_eq relative (codes ".") then name else relative ++ b'/' ∷ name

abbrev pub public_entry : FileWorld → Text → RemoteFileEntry → PublicFileEntry
public_entry w relative e = record {
  entry = e;
  path = public_path relative e.name;
  fingerprint = fingerprint w.hash e;
}

-- The function that `map` is given, on each entry in turn.
unfoldable pub public_entries :
    FileWorld → ListWorld → Text → ℕ → List RemoteFileEntry → M (List PublicFileEntry)
public_entries w l relative metadata_bytes [] = pure []
public_entries w l relative metadata_bytes (e ∷ rest) = do
  _ ← safe_or_throw e
  _ ←
      refuse_if (ltb w.config.max_file_metadata_bytes (metadata_bytes + l.json_bytes e))
        (codes "metadata_too_large")
  others ← public_entries w l relative (metadata_bytes + l.json_bytes e) rest
  pure (public_entry w relative e ∷ others)

unfoldable pub list_with : FileWorld → ListWorld → Text → ℕ → M (List PublicFileEntry)
unfolding resolve_content timed public_entries compare_entries
list_with w l relative h = do
  content ← resolve_content w h relative
  entries ←
      timed w h false (list_request content.canonical (w.config.max_file_entries + 1)) l.on_list
  _ ← refuse_if (ltb w.config.max_file_entries (length entries)) (codes "directory_too_large")
  listed ← public_entries w l relative 0 entries
  pure (l.sort (compare_entries l.locale_compare) listed)

-- The second try of `readOnly`, after the loss of the helper.
abbrev pub retry : {A : Type 0} → FileWorld → Outcome ℕ → (ℕ → M A) → ℕ → Text → M A
retry w respawned operation h message r =
    if not (is_helper_loss message) || r.session.disposed
    then (threw message, r)
    else (get_helper (record w { spawned = respawned }) >>= operation) (poison h r)

unfoldable pub read_only : {A : Type 0} → FileWorld → Outcome ℕ → (ℕ → M A) → M A
unfolding get_helper poison is_helper_loss
read_only w respawned operation = do
  h ← get_helper w
  catch (operation h) (retry w respawned operation h)

unfoldable pub list : FileWorld → ListWorld → Text → M (List PublicFileEntry)
unfolding read_only list_with
list w l relative = do
  _ ←
      refuse_if (not w.config.file_root_confinement_enforced)
        (codes "file_root_confinement_not_enforced")
  read_only w l.respawned (list_with w l relative)

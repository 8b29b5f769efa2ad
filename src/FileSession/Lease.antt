-- ===== src/FileSession/Lease.antt =====
-- The leases of src/server/file-session.ts: `prepare` makes one, and it is redeemed once.
use connexin.Prelude.{
  ℕ, Bool, true, false, not, ◌||◌, List, [], ◌∷◌, Option, none, some, ltb, if◌then◌else◌, text_eq,
  filter,
}
use connexin.Utf8.{Text}
use connexin.Numbers.{JsNumber}

pub data PrepareFileOperation : Type 0 where
  mkdir : Text → PrepareFileOperation
  rename :
      (from to expected_fingerprint : Text) (overwrite : Bool) (target_fingerprint : Option Text)
      → PrepareFileOperation
  delete : (path expected_fingerprint kind : Text) → PrepareFileOperation
  upload :
      (path : Text) (bytes : JsNumber) (overwrite : Bool) (expected_fingerprint : Option Text)
      → PrepareFileOperation
  download : (path expected_fingerprint : Text) (bytes : JsNumber) → PrepareFileOperation

pub data LeaseKind : Type 0 where
  to_mkdir to_rename to_delete to_upload to_download : LeaseKind

-- What a lease allows; its time is beside it.
pub data Grant : Type 0 where
  mkdir_grant : (path : Text) → Grant
  rename_grant :
      (from to source_fingerprint : Text) (overwrite : Bool) (target_fingerprint : Option Text)
      → Grant
  delete_grant : (path fingerprint kind : Text) → Grant
  upload_grant :
      (path : Text) (bytes : JsNumber) (overwrite : Bool) (target_fingerprint : Option Text) → Grant
  download_grant : (path fingerprint : Text) (bytes : JsNumber) → Grant

pub record Lease : Type 0 where
  pub grant : Grant
  pub expires_at : ℕ

abbrev pub Leases : Type 0
Leases = List (Text × Lease)

abbrev pub kind_of : Grant → LeaseKind
kind_of (mkdir_grant path) = to_mkdir
kind_of (rename_grant from to source overwrite target) = to_rename
kind_of (delete_grant path fingerprint kind) = to_delete
kind_of (upload_grant path bytes overwrite target) = to_upload
kind_of (download_grant path fingerprint bytes) = to_download

abbrev pub same_kind : LeaseKind → LeaseKind → Bool
same_kind to_mkdir to_mkdir = true
same_kind to_rename to_rename = true
same_kind to_delete to_delete = true
same_kind to_upload to_upload = true
same_kind to_download to_download = true
same_kind a b = false

-- The `Map` of leases by token.
unfoldable pub find_lease : Text → Leases → Option Lease
find_lease token [] = none
find_lease token ((t, lease) ∷ rest) = if text_eq t token then some lease else find_lease token rest

unfoldable pub set_lease : Text → Lease → Leases → Leases
set_lease token lease [] = (token, lease) ∷ []
set_lease token lease ((t, old) ∷ rest) =
    if text_eq t token then (t, lease) ∷ rest else (t, old) ∷ set_lease token lease rest

unfoldable pub delete_lease : Text → Leases → Leases
delete_lease token = filter (λ entry. not (text_eq entry.0 token))

unfoldable pub prune_expired_leases : ℕ → Leases → Leases
prune_expired_leases now = filter (λ entry. not (ltb entry.1.expires_at now))

abbrev pub redeemable : LeaseKind → ℕ → Option Lease → Option Grant
redeemable kind now none = none
redeemable kind now (some lease) =
    if not (same_kind (kind_of lease.grant) kind) || ltb lease.expires_at now
    then none
    else some lease.grant

-- `consumeLease`: the lease is gone in any case; `none` where it throws `invalid_lease`.
unfoldable pub consume_lease : LeaseKind → Text → ℕ → Leases → Leases × Option Grant
unfolding find_lease delete_lease
consume_lease kind token now leases =
    (delete_lease token leases, redeemable kind now (find_lease token leases))

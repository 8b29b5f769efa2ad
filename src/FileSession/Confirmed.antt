-- ===== src/FileSession/Confirmed.antt =====
-- What `mutate` of src/server/file-session.ts sends to the other end.
use connexin.Prelude.{
  ℕ, ◌≡◌, refl, sym, ap, ◌∙◌, inl, inr, Bool, true, false, not, ◌||◌, List, length, [], ◌∷◌, Option,
  none, some, if◌then◌else◌, Bool-cases, codes, text_eq, ltb, or-false, text_eq→eq,
}
use connexin.Utf8.{Text}
use connexin.FilePolicy.Posix.{posix_dirname}
use connexin.FileSession.Entry.{RemoteFileEntry, fingerprint}
use connexin.FileSession.Lease.{
  LeaseKind, Grant, mkdir_grant, rename_grant, delete_grant, upload_grant, download_grant, Lease,
  Leases, kind_of, same_kind, find_lease, delete_lease, redeemable,
}
use connexin.FileSession.Run.{
  Request, FileWorld, FileRun, Outcome, mkdir_request, rename_request, remove_request, threw,
}
use connexin.FileSession.Resolve.{check_within, lstat, optional_lstat, resolve_entry_by_canonical}
use connexin.FileSession.Prepare.{is_there}
use connexin.FileSession.Redeem.{target_changed, apply_grant}
use connexin.FileSession.Safety.{
  mutations, stay, Safe, Anything, bind-Safe, refuse_if-Safe, Anything-Safe, lstat-Safe, IsSeen,
  FromHelper, optional_lstat-Safe, check_within-Safe, require_fingerprint-Safe,
}
use connexin.FileSession.Applied.{
  request_of, IsAllowedTarget, IsConfirmed, IsReported, IsEnd, Applied, spared, bind-Applied,
  timed-Applied,
}

pub not-false : {b : Bool} → not b ≡ false → b ≡ true
not-false {b = true} h = refl
not-false {b = false} h = cc

there_none :
    (w : FileWorld) (path : Text) (o : Option RemoteFileEntry)
    → is_there o ≡ false
    → IsSeen w path o
    → IsSeen w path none
there_none w path none h s = s
there_none w path (some e) h s = absurd (differ h)
  where
    differ : true ≡ false → ⊥
    differ e = cc

lstat-IsSeen :
    (w : FileWorld) (h : ℕ) (path : Text)
    → Safe (λ e. IsSeen w path (some e)) Anything (lstat w h path)
lstat-IsSeen w h path =
    Anything-Safe (λ e. IsSeen w path (some e)) (FromHelper (λ n. w.on_lstat n path))
      (lstat w h path) (lstat-Safe w h path)

-- An unchanged target is an allowed one.
target_changed-IsAllowedTarget :
    (w : FileWorld) (o : Option RemoteFileEntry) (expected : Option Text)
    → target_changed w o expected ≡ false
    → IsAllowedTarget w o expected
target_changed-IsAllowedTarget w none expected h = tt
target_changed-IsAllowedTarget w (some e) none h =
    let (kind, same) = or-false {a = text_eq e.kind (codes "symlink")} {b = not false} h in cc
target_changed-IsAllowedTarget w (some e) (some t) h =
    let (kind, same) =
      or-false {a = text_eq e.kind (codes "symlink")} {b = not (text_eq t (fingerprint w.hash e))}
        h in
    (kind, ap some (text_eq→eq t (fingerprint w.hash e) (not-false same)))

pub apply_grant-Applied :
    (w : FileWorld) (h : ℕ) (grant : Grant) (r : FileRun)
    → Applied
        (IsEnd w.on_mutation)
        (IsConfirmed w grant)
        (request_of grant)
        r
        (apply_grant w h grant r)
unfolding apply_grant resolve_entry_by_canonical
apply_grant-Applied w h (mkdir_grant path) r =
    bind-Applied (IsSeen w path) Anything (IsEnd w.on_mutation) (IsSeen w path none)
      (some (mkdir_request path)) (resolve_entry_by_canonical w h path) _
      (bind-Safe Anything Anything (IsSeen w path) (check_within (posix_dirname path)) _
        (check_within-Safe (posix_dirname path)) (λ a p. optional_lstat-Safe w h path))
      (λ current seen.
        bind-Applied (λ b. is_there current ≡ false) Anything (IsEnd w.on_mutation)
          (IsSeen w path none) (some (mkdir_request path)) _ _
          (refuse_if-Safe (is_there current) (codes "file_changed"))
          (λ b absent.
            timed-Applied (IsSeen w path none) w h (mkdir_request path) w.on_mutation refl
              (there_none w path current absent seen)))
      r
apply_grant-Applied w h (rename_grant from to expected overwrite target) r =
    let Shown = IsConfirmed w (rename_grant from to expected overwrite target) in
    let q = some (rename_request from to overwrite) in
    bind-Applied (λ e. IsSeen w from (some e)) Anything (IsEnd w.on_mutation) Shown q
      (lstat w h from) _ (lstat-IsSeen w h from)
      (λ source seen.
        bind-Applied (λ b. fingerprint w.hash source ≡ expected) Anything (IsEnd w.on_mutation)
          Shown q _ _ (require_fingerprint-Safe w source expected)
          (λ b same.
            bind-Applied (IsSeen w to) Anything (IsEnd w.on_mutation) Shown q
              (optional_lstat w h to) _ (optional_lstat-Safe w h to)
              (λ o seen_to.
                bind-Applied (λ b. target_changed w o target ≡ false) Anything (IsEnd w.on_mutation)
                  Shown q _ _ (refuse_if-Safe (target_changed w o target) (codes "file_changed"))
                  (λ b kept.
                    timed-Applied Shown w h (rename_request from to overwrite) w.on_mutation refl (
                      (source, seen, same),
                      (o, seen_to, target_changed-IsAllowedTarget w o target kept),
                    )))))
      r
apply_grant-Applied w h (delete_grant path expected kind) r =
    let Shown = IsConfirmed w (delete_grant path expected kind) in
    let request = remove_request path (text_eq kind (codes "directory")) in
    bind-Applied (λ e. IsSeen w path (some e)) Anything (IsEnd w.on_mutation) Shown (some request)
      (lstat w h path) _ (lstat-IsSeen w h path)
      (λ current seen.
        bind-Applied (λ b. fingerprint w.hash current ≡ expected) Anything (IsEnd w.on_mutation)
          Shown (some request) _ _ (require_fingerprint-Safe w current expected)
          (λ b same.
            bind-Applied (λ b. not (text_eq current.kind kind) ≡ false) Anything
              (IsEnd w.on_mutation) Shown (some request) _ _
              (refuse_if-Safe (not (text_eq current.kind kind)) (codes "file_changed"))
              (λ b kept.
                timed-Applied Shown w h request w.on_mutation refl
                  (current, seen, same, not-false kept))))
      r
apply_grant-Applied w h (upload_grant path bytes overwrite target) r = spared _ refl (stay r)
apply_grant-Applied w h (download_grant path fingerprint bytes) r = spared _ refl (stay r)

-- The outcomes of `mutate` at the other end.
pub data Redeems (w : FileWorld) (token : Text) (kind : LeaseKind) (r : FileRun)
    (x : Outcome Bool × FileRun) : Type 0 where
  untouched :
      (message : Text)
      → x.0 ≡ threw message
      → mutations x.1.sent ≡ mutations r.sent
      → Redeems w token kind r x
  performed :
      (lease : Lease) (q : Request) (earlier : List Request)
      → find_lease token r.session.leases ≡ some lease
      → same_kind (kind_of lease.grant) kind ≡ true
      → ltb lease.expires_at w.now ≡ false
      → IsConfirmed w lease.grant
      → request_of lease.grant ≡ some q
      → mutations x.1.sent ≡ q ∷ mutations r.sent
      → x.1.sent ≡ q ∷ earlier
      → IsReported (w.on_mutation (length earlier)) x.0
      → Redeems w token kind r x

pub find-delete_lease :
    (token : Text) (leases : Leases) → find_lease token (delete_lease token leases) ≡ none
unfolding find_lease delete_lease
find-delete_lease token [] = refl
find-delete_lease token ((t, lease) ∷ rest) = elim (Bool-cases (text_eq t token)) [
  | inl same ↦ rw (same) (find-delete_lease token rest)
  | inr other ↦ rw (other, other) (find-delete_lease token rest)
]

-- What is known where `consumeLease` returns.
pub redeemable_cases :
    (kind : LeaseKind) (now : ℕ) (o : Option Lease) (grant : Grant)
    → redeemable kind now o ≡ some grant
    → (lease : Lease) × (o ≡ some lease)
      × (lease.grant ≡ grant)
      × (same_kind (kind_of lease.grant) kind ≡ true)
      × (ltb lease.expires_at now ≡ false)
redeemable_cases kind now none grant h = cc
redeemable_cases kind now (some lease) grant h =
    elim (Bool-cases (not (same_kind (kind_of lease.grant) kind) || ltb lease.expires_at now)) [
      | inl bad ↦ absurd (refused (sym (ap (λ b. if b then none else some lease.grant) bad) ∙ h))
      | inr fine ↦
          let (kinds, time) = or-false fine in
          (
            lease,
            refl,
            unwrap (sym (ap (λ b. if b then none else some lease.grant) fine) ∙ h),
            not-false kinds,
            time,
          )
    ]
  where
    refused : none ≡ some grant → ⊥
    refused e = cc

    unwrap : some lease.grant ≡ some grant → lease.grant ≡ grant
    unwrap e = cc

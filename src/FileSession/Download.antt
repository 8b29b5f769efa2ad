-- ===== src/FileSession/Download.antt =====
-- The size of what `downloadBuffer` of src/server/file-session.ts returns.
use connexin.Prelude.{
  ℕ, ◌+◌, ◌≤◌, ◌≡◌, refl, ap, subst, ◌∙◌, true, false, not, ◌||◌, List, [], ◌∷◌, Option, none, some,
  arith, ltb, ltb-false→le, ltb-eq-false, ==_iff, length, flatten, length-append, or-false, codes,
  text_eq,
}
use connexin.Utf8.{Text}
use connexin.Numbers.{JsNumber, natural, minus_suc, no_safe_integer, js_eq, exceeds}
use connexin.FileSession.Entry.{RemoteFileEntry}
use connexin.FileSession.Lease.{
  to_download, Grant, mkdir_grant, rename_grant, delete_grant, upload_grant, download_grant, Lease,
  find_lease, delete_lease, redeemable, consume_lease,
}
use connexin.FileSession.Run.{
  FileWorld, FileRun, Outcome, done, threw, M, then_run, refuse_if, get_helper, send,
  download_request,
}
use connexin.FileSession.Redeem.{
  consume, grant_or_throw, transfer, download_changed, recycle, over, collect, download_granted,
  with_transfer, download_with, download_buffer,
}
use connexin.FileSession.Resolve.{lstat, require_fingerprint}
use connexin.FileSession.Safety.{Holds, Anything}
use connexin.FileSession.Gives.{Gives, bind-Gives, refuse_if-Gives, catch-Gives}
use connexin.FileSession.Confirmed.{redeemable_cases, not-false}

collect-le :
    (granted : JsNumber) (actual : ℕ) (chunks : List Text)
    → actual ≤ (collect granted actual chunks).0
unfolding collect
collect-le granted actual [] = omega arith
collect-le granted actual (chunk ∷ chunks) =
    omega (arith, collect-le granted (actual + length chunk) chunks)

not_over : (granted : JsNumber) (n m : ℕ) → n ≤ m → over m granted ≡ false → over n granted ≡ false
not_over (natural g) n m h o = ltb-eq-false g n (omega (arith, ltb-false→le g m o))
not_over (minus_suc g) n m h o = cc
not_over no_safe_integer n m h o = refl

-- Where the total is within the grant, every chunk is kept.
collect-flatten :
    (granted : JsNumber) (actual : ℕ) (chunks : List Text)
    → over (collect granted actual chunks).0 granted ≡ false
    → actual + length (flatten (collect granted actual chunks).1)
      ≡ (collect granted actual chunks).0
unfolding collect
collect-flatten granted actual [] h = omega arith
collect-flatten granted actual (chunk ∷ chunks) h =
    let now = actual + length chunk in
    let rest = collect granted now chunks in
    let within = not_over granted now rest.0 (collect-le granted now chunks) h in
    rw (within)
      (omega (arith, length-append chunk (flatten rest.1), collect-flatten granted now chunks h))

equal-not_over :
    (granted : JsNumber) (n : ℕ) → js_eq (natural n) granted ≡ true → over n granted ≡ false
equal-not_over (natural g) n h = ltb-eq-false g n (omega (arith, (==_iff n g).0 h))
equal-not_over (minus_suc g) n h = cc
equal-not_over no_safe_integer n h = cc

-- The text has as many bytes as the grant says.
abbrev pub HasSize : JsNumber → Text → Type 0
HasSize bytes text = js_eq (natural (length text)) bytes ≡ true

kept-HasSize :
    (bytes : JsNumber) (chunks : List Text)
    → js_eq (natural (collect bytes 0 chunks).0) bytes ≡ true
    → HasSize bytes (flatten (collect bytes 0 chunks).1)
kept-HasSize bytes chunks h =
    let total =
      collect-flatten bytes 0 chunks (equal-not_over bytes (collect bytes 0 chunks).0 h) in
    ap (λ n. js_eq (natural n) bytes) (omega (arith, total)) ∙ h

-- The size that was granted, within the limit of the configuration.
abbrev pub IsWhole : FileWorld → JsNumber → Text → Type 0
IsWhole w bytes text = HasSize bytes text × (length text ≤ w.config.max_embedded_download_bytes)

unexceeded :
    (size bytes : JsNumber) (n limit : ℕ)
    → js_eq size bytes ≡ true
    → exceeds size limit ≡ false
    → js_eq (natural n) bytes ≡ true
    → n ≤ limit
unexceeded (natural s) (natural b) n limit e x h = ground arith
unexceeded (minus_suc s) (natural b) n limit e x h = cc
unexceeded no_safe_integer (natural b) n limit e x h = cc
unexceeded size (minus_suc b) n limit e x h = cc
unexceeded size no_safe_integer n limit e x h = cc

-- What is known of an entry that is downloaded.
unchanged-IsWhole :
    (w : FileWorld) (current : RemoteFileEntry) (bytes : JsNumber) (text : Text)
    → download_changed w current bytes ≡ false
    → HasSize bytes text
    → IsWhole w bytes text
unchanged-IsWhole w current bytes text fine sized =
    let limit = w.config.max_embedded_download_bytes in
    let (first, small) =
      or-false {a = not (text_eq current.kind (codes "file")) || not (js_eq current.size bytes)}
        {b = exceeds current.size limit} fine in
    let (kind, size) =
      or-false {a = not (text_eq current.kind (codes "file"))} {b = not (js_eq current.size bytes)}
        first in
    (sized, unexceeded current.size bytes (length text) limit (not-false size) small sized)

granted-IsWhole :
    (w : FileWorld) (h : ℕ) (path fingerprint : Text) (bytes : JsNumber)
    → Gives (IsWhole w bytes) (download_granted w h path fingerprint bytes)
unfolding download_granted
granted-IsWhole w h path fingerprint bytes =
    bind-Gives (IsWhole w bytes) (lstat w h path) _ (λ current.
      bind-Gives (IsWhole w bytes) (require_fingerprint w current fingerprint) _ (λ same.
        refuse_if-Gives (IsWhole w bytes) (download_changed w current bytes) (codes "file_changed")
          _
          (λ fine kept.
            bind-Gives (IsWhole w bytes)
              (λ r. transfer w w.on_transfer (send (download_request path bytes) r)) _
              (λ reported.
                refuse_if-Gives (IsWhole w bytes)
                  (not (js_eq reported bytes)
                    || not (js_eq (natural (collect bytes 0 w.delivered).0) bytes))
                  (codes "transfer_size_mismatch") _
                  (λ sizes b r.
                    unchanged-IsWhole w current bytes _ fine
                      (kept-HasSize bytes w.delivered (not-false (or-false sizes).1)))))))

with_transfer-Gives :
    {A : Type 0} (P : A → Type 0) (w : FileWorld) (operation : ℕ → M A)
    → ((h : ℕ) → Gives P (operation h))
    → Gives P (with_transfer w operation)
unfolding with_transfer
with_transfer-Gives P w operation g =
    bind-Gives P (refuse_if w.aborted_before (codes "aborted")) _ (λ started.
      bind-Gives P (get_helper w) _
        (λ h. catch-Gives P (operation h) (recycle h) (g h) (λ message r. tt)))

-- A buffer that is downloaded has exactly the size that was confirmed: there was a lease for a
-- download under this token, not expired, and the buffer has the bytes that it grants, neither
-- fewer nor more, whatever the helper delivers; and it is within `maxEmbeddedDownloadBytes`.
pub download_buffer-IsWhole :
    (w : FileWorld) (token : Text) (r : FileRun) (text : Text)
    → (download_buffer w token r).0 ≡ done text
    → (lease : Lease) × (path : Text) × (fingerprint : Text) × (bytes : JsNumber) × (find_lease
          token r.session.leases
        ≡ some lease)
      × (lease.grant ≡ download_grant path fingerprint bytes)
      × (ltb lease.expires_at w.now ≡ false)
      × IsWhole w bytes text
unfolding download_buffer consume consume_lease download_with
download_buffer-IsWhole w token r text e =
    after (redeemable to_download w.now (find_lease token r.session.leases)) refl
      (record r { session = record r.session { leases = delete_lease token r.session.leases } }) e
  where
    sized : (P : Text → Type 0) (x : Outcome Text) → Holds P Anything x → x ≡ done text → P text
    sized P (done t) h e = subst P (unwrap e) h
      where
        unwrap : {t : Text} → done t ≡ done text → t ≡ text
        unwrap e = cc
    sized P (threw message) h e = cc

    after :
        (o : Option Grant)
        → redeemable to_download w.now (find_lease token r.session.leases) ≡ o
        → (s : FileRun) → (then_run (grant_or_throw o s) (download_with w)).0 ≡ done text
        → (lease : Lease) × (path : Text) × (fingerprint : Text) × (bytes : JsNumber) × (find_lease
              token r.session.leases
            ≡ some lease)
          × (lease.grant ≡ download_grant path fingerprint bytes)
          × (ltb lease.expires_at w.now ≡ false)
          × IsWhole w bytes text
    after none f s h = cc
    after (some (mkdir_grant path)) f s h = cc
    after (some (rename_grant from to source overwrite target)) f s h = cc
    after (some (delete_grant path fingerprint kind)) f s h = cc
    after (some (upload_grant path bytes overwrite target)) f s h = cc
    after (some (download_grant path fingerprint bytes)) f s h =
        let (lease, found, is_grant, kinds, time) =
          redeemable_cases to_download w.now (find_lease token r.session.leases) _ f in
        (
          lease,
          path,
          fingerprint,
          bytes,
          found,
          is_grant,
          time,
          sized (IsWhole w bytes) _
              (with_transfer-Gives (IsWhole w bytes) w _
                (λ h. granted-IsWhole w h path fingerprint bytes) s)
              h,
        )

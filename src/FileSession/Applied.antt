-- ===== src/FileSession/Applied.antt =====
-- Calls of src/server/file-session.ts that send at most one mutation.
use connexin.Prelude.{
  ℕ, ◌≡◌, refl, ◌∙◌, sym, ap, ◌⊎◌, List, [], if◌then◌else◌, inl, inr, Bool, true, false, ◌||◌, ◌∷◌,
  Option, none, some, Bool-cases, codes, text_eq, length,
}
use connexin.Utf8.{Text}
use connexin.FileSession.Entry.{RemoteFileEntry, fingerprint}
use connexin.FileSession.Lease.{
  Grant, mkdir_grant, rename_grant, delete_grant, upload_grant, download_grant, find_lease,
}
use connexin.FileSession.Run.{
  Request, mkdir_request, rename_request, remove_request, answered, refused, late, Reply, FileWorld,
  FileRun, Outcome, done, threw, M, then_run, ◌>>=◌, timed, settle, send, waited, dispose,
  dispose_helper, update_session,
}
use connexin.FileSession.Safety.{
  is_mutation, mutations, Quietly, stay, Quietly-trans, waited-Quietly, poison-Quietly, Holds, Safe,
  IsSeen,
}

-- The request that a grant allows.
abbrev pub request_of : Grant → Option Request
request_of (mkdir_grant path) = some (mkdir_request path)
request_of (rename_grant from to source overwrite target) = some (rename_request from to overwrite)
request_of (delete_grant path fingerprint kind) =
    some (remove_request path (text_eq kind (codes "directory")))
request_of (upload_grant path bytes overwrite target) = none
request_of (download_grant path fingerprint bytes) = none

-- The helper has shown an entry with this fingerprint.
abbrev pub ShowsFingerprint : FileWorld → Text → Text → Type 0
ShowsFingerprint w path expected =
    (e : RemoteFileEntry) × IsSeen w path (some e) × (fingerprint w.hash e ≡ expected)

-- The target of a rename: there is none, or it is no symlink and has the confirmed fingerprint.
abbrev pub IsAllowedTarget : FileWorld → Option RemoteFileEntry → Option Text → Type 0
IsAllowedTarget w none expected = Unit
IsAllowedTarget w (some e) expected =
    (text_eq e.kind (codes "symlink") ≡ false) × (expected ≡ some (fingerprint w.hash e))

-- What the helper has shown in this call of the files that a grant is about.
abbrev pub IsConfirmed : FileWorld → Grant → Type 0
IsConfirmed w (mkdir_grant path) = IsSeen w path none
IsConfirmed w (rename_grant from to source overwrite target) =
    ShowsFingerprint w from source × ((o : _) × IsSeen w to o × IsAllowedTarget w o target)
IsConfirmed w (delete_grant path expected kind) =
    (e : RemoteFileEntry) × IsSeen w path (some e)
    × (fingerprint w.hash e ≡ expected)
    × (text_eq e.kind kind ≡ true)
IsConfirmed w (upload_grant path bytes overwrite target) = ⊥
IsConfirmed w (download_grant path fingerprint bytes) = ⊥

-- How `timed` ends a mutation on the reply of the helper.
abbrev pub ended_by : Reply Bool → Outcome Bool
ended_by (answered b) = done b
ended_by (refused message) = threw message
ended_by late = threw (codes "outcome_unknown")

-- The messages that say that the helper was lost.
abbrev pub IsLoss : Text → Type 0
IsLoss message =
    (message ≡ codes "helper_closed")
    ⊎ ((message ≡ codes "helper_unavailable")
        ⊎ ((message ≡ codes "aborted") ⊎ (message ≡ codes "timeout")))

-- What `mutate` reports of the reply: the answer, the refusal, or that the outcome is unknown where
-- there was no reply in time or the refusal is a loss of the helper.
pub data IsReported : Reply Bool → Outcome Bool → Type 0 where
  success : (b : Bool) → IsReported (answered b) (done b)
  refusal : (message : Text) → (IsLoss message → ⊥) → IsReported (refused message) (threw message)
  loss :
      (message : Text)
      → IsLoss message
      → IsReported (refused message) (threw (codes "outcome_unknown"))
  no_reply : IsReported late (threw (codes "outcome_unknown"))

-- A call has sent nothing and throws, or it has sent this request once what it needs was shown, and ends as
-- the reply tells.
pub data Applied (Told : ℕ → Outcome Bool → Type 0) (Shown : Type 0) (q : Option Request)
    (r : FileRun) (x : Outcome Bool × FileRun) : Type 0 where
  spared : (message : Text) → x.0 ≡ threw message → Quietly r x.1 → Applied Told Shown q r x
  sent :
      Shown
      → (s : FileRun) (m : Request) → q ≡ some m
      → Quietly r s
      → mutations x.1.sent ≡ m ∷ mutations s.sent
      → ((token : Text)
          → find_lease token s.session.leases ≡ none
          → find_lease token x.1.session.leases ≡ none)
      → (earlier : List Request) → x.1.sent ≡ m ∷ earlier
      → Told (length earlier) x.0
      → Applied Told Shown q r x

-- The outcome of `timed` on the reply to the request with this number.
abbrev pub IsEnd : (ℕ → Reply Bool) → ℕ → Outcome Bool → Type 0
IsEnd answer n x = x ≡ ended_by (answer n)

pub after_quiet :
    (Told : ℕ → Outcome Bool → Type 0) (Shown : Type 0) (q : Option Request) (r s : FileRun)
    (x : Outcome Bool × FileRun)
    → Quietly r s
    → Applied Told Shown q s x
    → Applied Told Shown q r x
after_quiet Told Shown q r s x a (spared message e b) = spared message e (Quietly-trans r s x.1 a b)
after_quiet Told Shown q r s x a (sent shown t m e b same gone earlier last told) =
    sent shown t m e (Quietly-trans r s t a b) same gone earlier last told

pub bind-Applied :
    {A : Type 0} (P : A → Type 0) (E : Text → Type 0) (Told : ℕ → Outcome Bool → Type 0)
    (Shown : Type 0) (q : Option Request) (m : M A) (f : A → M Bool)
    → Safe P E m
    → ((a : A) → P a → (r : FileRun) → Applied Told Shown q r (f a r))
    → (r : FileRun) → Applied Told Shown q r ((m >>= f) r)
bind-Applied {A} P E Told Shown q m f s k r = through (m r) (s r)
  where
    through :
        (x : Outcome A × FileRun)
        → Quietly r x.1 × Holds P E x.0
        → Applied Told Shown q r (then_run x f)
    through (done a, t) (quiet, p) = after_quiet Told Shown q r t (f a t) quiet (k a p t)
    through (threw message, t) (quiet, p) = spared message refl quiet

waited_sent : (w : FileWorld) (n : ℕ) (r : FileRun) → (waited w n r).sent ≡ r.sent
unfolding dispose
waited_sent w n r = elim (Bool-cases (w.disposed_during n)) [
  | inl now ↦ rw (now) (gone r.session.disposed)
  | inr live ↦ rw (live) refl
]
  where
    rest : FileRun
    rest =
        dispose_helper r.session.helper
          (update_session (λ s. record s { disposed = true; leases = [] }) r)

    helper_sent : (o : Option ℕ) (t : FileRun) → (dispose_helper o t).sent ≡ t.sent
    helper_sent none t = refl
    helper_sent (some h) t = refl

    gone : (b : Bool) → (if b then r else rest).sent ≡ r.sent
    gone true = refl
    gone false = helper_sent r.session.helper _

pub timed-Applied :
    (Shown : Type 0) (w : FileWorld) (h : ℕ) (q : Request) (answer : ℕ → Reply Bool)
    → is_mutation q ≡ true
    → Shown
    → (r : FileRun) → Applied (IsEnd answer) Shown (some q) r (timed w h true q answer r)
unfolding timed
timed-Applied Shown w h q answer mutating shown r =
    let n = length r.sent in
    let s = waited w n (send q r) in
    let quiet = waited-Quietly w n (send q r) in
    settled (answer n) s refl (waited_sent w n (send q r)) (quiet.same ∙ rw (mutating) refl)
      (quiet.gone)
  where
    settled :
        (a : Reply Bool) (s : FileRun)
        → answer (length r.sent) ≡ a
        → s.sent ≡ q ∷ r.sent
        → mutations s.sent ≡ q ∷ mutations r.sent
        → ((token : Text)
            → find_lease token r.session.leases ≡ none
            → find_lease token s.session.leases ≡ none)
        → Applied (IsEnd answer) Shown (some q) r (settle h true a s)
    settled (answered a) s f last e g =
        sent shown r q refl (stay r) e g r.sent last (sym (ap ended_by f))
    settled late s f last e g =
        sent shown r q refl (stay r) ((poison-Quietly h s).same ∙ e)
          (λ token x. (poison-Quietly h s).gone token (g token x)) r.sent last (sym (ap ended_by f))
    settled (refused message) s f last e g =
        elim (Bool-cases
          (text_eq message (codes "timeout") || text_eq message (codes "outcome_unknown"))) [
            | inl fatal ↦ rw (fatal) (
                sent shown r q refl (stay r) ((poison-Quietly h s).same ∙ e)
                  (λ token x. (poison-Quietly h s).gone token (g token x)) r.sent last
                  (sym (ap ended_by f)))
            | inr plain ↦
                rw (plain) (sent shown r q refl (stay r) e g r.sent last (sym (ap ended_by f)))
          ]

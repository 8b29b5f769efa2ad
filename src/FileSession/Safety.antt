-- ===== src/FileSession/Safety.antt =====
-- Calls of src/server/file-session.ts that change nothing at the other end: what they send, what
-- they keep, and what is known of their results.
use connexin.Prelude.{
  ℕ, ◌≡◌, refl, sym, ap, ◌∙◌, ◌⊎◌, inl, inr, Bool, true, false, ◌||◌, List, [], Option, none, some,
  if◌then◌else◌, Bool-cases, filter, length, codes, text_eq, text_eq→eq,
}
use connexin.Utf8.{Text}
use connexin.FilePolicy.{PathError, assert_canonical_within}
use connexin.FileSession.Entry.{RemoteFileEntry, is_safe_entry, fingerprint}
use connexin.FileSession.Lease.{find_lease}
use connexin.FileSession.Run.{
  Request, hello, root_request, list_request, lstat_request, realpath_request, mkdir_request,
  rename_request, remove_request, upload_request, download_request, Reply, answered, refused, late,
  FileWorld, FileRun, Outcome, done, threw, M, pure, then_run, ◌>>=◌, or_run, catch, refuse_if,
  dispose, dispose_helper, update_session, poison, settle, timed, send, waited,
}
use connexin.FileSession.Resolve.{
  check_within, lstat, optional_lstat, require_fingerprint, safe_or_throw, none_if_missing,
  none_or_throw,
}

abbrev pub is_mutation : Request → Bool
is_mutation (mkdir_request path) = true
is_mutation (rename_request from to overwrite) = true
is_mutation (remove_request path directory) = true
is_mutation hello = false
is_mutation root_request = false
is_mutation (list_request path limit) = false
is_mutation (lstat_request path) = false
is_mutation (realpath_request path) = false
is_mutation (upload_request path bytes overwrite) = false
is_mutation (download_request path max_bytes) = false

abbrev pub mutations : List Request → List Request
mutations = filter is_mutation

-- No mutation is sent, and no lease appears.
pub record Quietly (r r' : FileRun) : Type 0 where
  pub same : mutations r'.sent ≡ mutations r.sent
  pub gone :
      (token : Text)
      → find_lease token r.session.leases ≡ none
      → find_lease token r'.session.leases ≡ none

pub stay : (r : FileRun) → Quietly r r
stay r = record { same = refl; gone = λ token h. h }

pub Quietly-trans : (r s t : FileRun) → Quietly r s → Quietly s t → Quietly r t
Quietly-trans r s t a b = record {
  same = b.same ∙ a.same;
  gone = λ token h. b.gone token (a.gone token h);
}

dispose_helper-Quietly : (o : Option ℕ) (r : FileRun) → Quietly r (dispose_helper o r)
dispose_helper-Quietly none r = stay r
dispose_helper-Quietly (some h) r = record { same = refl; gone = λ token e. e }

unless-Quietly : (b : Bool) (r s : FileRun) → Quietly r s → Quietly r (if b then r else s)
unless-Quietly true r s q = stay r
unless-Quietly false r s q = q

pub dispose-Quietly : (r : FileRun) → Quietly r (dispose r)
unfolding dispose find_lease
dispose-Quietly r =
    let closed = update_session (λ s. record s { disposed = true; leases = [] }) r in
    unless-Quietly r.session.disposed r (dispose_helper r.session.helper closed) (
      Quietly-trans r closed (dispose_helper r.session.helper closed)
        (record { same = refl; gone = λ token e. refl })
        (dispose_helper-Quietly r.session.helper closed))

pub poison-Quietly : (h : ℕ) (r : FileRun) → Quietly r (poison h r)
unfolding poison
poison-Quietly h r = record { same = refl; gone = λ token e. e }

pub waited-Quietly : (w : FileWorld) (n : ℕ) (r : FileRun) → Quietly r (waited w n r)
waited-Quietly w n r = elim (Bool-cases (w.disposed_during n)) [
  | inl now ↦ rw (now) (dispose-Quietly r)
  | inr live ↦ rw (live) (stay r)
]

abbrev pub Holds : {A : Type 0} → (A → Type 0) → (Text → Type 0) → Outcome A → Type 0
Holds P E (done a) = P a
Holds P E (threw message) = E message

-- From every state the call is quiet, its result has P, and what it throws has E.
abbrev pub Safe : {A : Type 0} → (A → Type 0) → (Text → Type 0) → M A → Type 0
Safe P E m = (r : FileRun) → Quietly r (m r).1 × Holds P E (m r).0

abbrev pub Anything : {A : Type 0} → A → Type 0
Anything a = Unit

then_run-Safe :
    {A B : Type 0} (P : A → Type 0) (E : Text → Type 0) (Q : B → Type 0) (x : Outcome A × FileRun)
    (f : A → M B) (r : FileRun)
    → Quietly r x.1
    → Holds P E x.0
    → ((a : A) → P a → Safe Q E (f a))
    → Quietly r (then_run x f).1 × Holds Q E (then_run x f).0
then_run-Safe P E Q (done a, s) f r q h k =
    let (quiet, holds) = k a h s in (Quietly-trans r s (f a s).1 q quiet, holds)
then_run-Safe P E Q (threw message, s) f r q h k = (q, h)

pub bind-Safe :
    {A B : Type 0} (P : A → Type 0) (E : Text → Type 0) (Q : B → Type 0) (m : M A) (f : A → M B)
    → Safe P E m
    → ((a : A) → P a → Safe Q E (f a))
    → Safe Q E (m >>= f)
bind-Safe P E Q m f s k r = then_run-Safe P E Q (m r) f r (s r).0 (s r).1 k

or_run-Safe :
    {A : Type 0} (P : A → Type 0) (E F : Text → Type 0) (x : Outcome A × FileRun)
    (handler : Text → M A) (r : FileRun)
    → Quietly r x.1
    → Holds P E x.0
    → ((message : Text) → E message → Safe P F (handler message))
    → Quietly r (or_run x handler).1 × Holds P F (or_run x handler).0
or_run-Safe P E F (done a, s) handler r q h k = (q, h)
or_run-Safe P E F (threw message, s) handler r q h k =
    let (quiet, holds) = k message h s in (Quietly-trans r s (handler message s).1 q quiet, holds)

pub catch-Safe :
    {A : Type 0} (P : A → Type 0) (E F : Text → Type 0) (m : M A) (handler : Text → M A)
    → Safe P E m
    → ((message : Text) → E message → Safe P F (handler message))
    → Safe P F (catch m handler)
catch-Safe P E F m handler s k r = or_run-Safe P E F (m r) handler r (s r).0 (s r).1 k

pub refuse_if-Safe :
    (test : Bool) (message : Text) → Safe (λ b. test ≡ false) Anything (refuse_if test message)
refuse_if-Safe true message r = (stay r, tt)
refuse_if-Safe false message r = (stay r, refl)

pub if-Safe :
    {A : Type 0} (P : A → Type 0) (E : Text → Type 0) (b : Bool) (r : FileRun)
    (x y : Outcome A × FileRun)
    → Quietly r x.1 × Holds P E x.0
    → Quietly r y.1 × Holds P E y.0
    → Quietly r (if b then x else y).1 × Holds P E (if b then x else y).0
if-Safe P E true r x y h k = h
if-Safe P E false r x y h k = k

pub forget-Safe :
    {A : Type 0} (P : A → Type 0) (E : Text → Type 0) (m : M A)
    → Safe P E m
    → Safe Anything Anything m
forget-Safe P E m s r = weaken (m r) (s r)
  where
    weaken :
        (x : Outcome _ × FileRun)
        → Quietly r x.1 × Holds P E x.0
        → Quietly r x.1 × Holds Anything Anything x.0
    weaken (done a, t) h = (h.0, tt)
    weaken (threw message, t) h = (h.0, tt)

-- Weaker knowledge of what is thrown.
pub Anything-Safe :
    {A : Type 0} (P : A → Type 0) (E : Text → Type 0) (m : M A) → Safe P E m → Safe P Anything m
Anything-Safe P E m s r = weaken (m r) (s r)
  where
    weaken :
        (x : Outcome _ × FileRun)
        → Quietly r x.1 × Holds P E x.0
        → Quietly r x.1 × Holds P Anything x.0
    weaken (done a, t) h = h
    weaken (threw message, t) h = (h.0, tt)

-- What `timed` throws: what the helper refuses with, or that the time is over.
abbrev pub FromHelper : {A : Type 0} → (ℕ → Reply A) → Text → Type 0
FromHelper answer message =
    ((n : ℕ) × (answer n ≡ refused message)) ⊎ ((text_eq message (codes "not_found") ≡ false))

pub timed-Safe :
    {A : Type 0} (w : FileWorld) (h : ℕ) (mutation : Bool) (q : Request) (answer : ℕ → Reply A)
    → is_mutation q ≡ false
    → Safe
        (λ a. (n : ℕ) × (answer n ≡ answered a))
        (FromHelper answer)
        (timed w h mutation q answer)
unfolding timed
timed-Safe {A} w h mutation q answer no_mutation r =
    let n = length r.sent in
    let s = waited w n (send q r) in
    settled n (answer n) s refl (
      Quietly-trans r (send q r) s (record { same = rw (no_mutation) refl; gone = λ token e. e })
        (waited-Quietly w n (send q r)))
  where
    settled :
        (n : ℕ) (a : Reply A) (s : FileRun)
        → answer n ≡ a
        → Quietly r s
        → Quietly r (settle h mutation a s).1
          × Holds
              (λ x. (n : ℕ) × (answer n ≡ answered x))
              (FromHelper answer)
              (settle h mutation a s).0
    settled n (answered a) s e q = (q, (n, e))
    settled n (refused message) s e q =
        elim (Bool-cases
          (text_eq message (codes "timeout") || text_eq message (codes "outcome_unknown"))) [
            | inl fatal ↦
                rw (fatal) (Quietly-trans r s (poison h s) q (poison-Quietly h s), inl (n, e))
            | inr plain ↦ rw (plain) (q, inl (n, e))
          ]
    settled n late s e q = elim (Bool-cases mutation) [
      | inl b ↦ rw (b) (Quietly-trans r s (poison h s) q (poison-Quietly h s), inr refl)
      | inr b ↦ rw (b) (Quietly-trans r s (poison h s) q (poison-Quietly h s), inr refl)
    ]

pub pure-Safe : {A : Type 0} (P : A → Type 0) (E : Text → Type 0) (a : A) → P a → Safe P E (pure a)
pure-Safe P E a h r = (stay r, h)

pub lstat-Safe :
    (w : FileWorld) (h : ℕ) (path : Text)
    → Safe
        (λ e. (n : ℕ) × (w.on_lstat n path ≡ answered e))
        (FromHelper (λ n. w.on_lstat n path))
        (lstat w h path)
unfolding lstat
lstat-Safe w h path =
    bind-Safe Seen (FromHelper (λ n. w.on_lstat n path)) Seen _ _
      (timed-Safe w h false (lstat_request path) (λ n. w.on_lstat n path) refl) checked
  where
    Seen : RemoteFileEntry → Type 0
    Seen e = (n : ℕ) × (w.on_lstat n path ≡ answered e)

    checked :
        (e : RemoteFileEntry)
        → Seen e
        → Safe Seen (FromHelper (λ n. w.on_lstat n path)) (safe_or_throw e)
    checked e seen r = elim (Bool-cases (is_safe_entry e)) [
      | inl safe ↦ rw (safe) (stay r, seen)
      | inr bad ↦ rw (bad) (stay r, inr refl)
    ]

-- What the helper has shown of a path: an entry, or that there is none.
abbrev pub IsSeen : FileWorld → Text → Option RemoteFileEntry → Type 0
IsSeen w path none = (n : ℕ) × (w.on_lstat n path ≡ refused (codes "not_found"))
IsSeen w path (some e) = (n : ℕ) × (w.on_lstat n path ≡ answered e)

pub optional_lstat-Safe :
    (w : FileWorld) (h : ℕ) (path : Text) → Safe (IsSeen w path) Anything (optional_lstat w h path)
unfolding optional_lstat
optional_lstat-Safe w h path =
    catch-Safe (IsSeen w path) (FromHelper (λ n. w.on_lstat n path)) Anything
      (lstat w h path >>= λ e. pure (some e)) none_if_missing
      (bind-Safe (λ e. (n : ℕ) × (w.on_lstat n path ≡ answered e))
        (FromHelper (λ n. w.on_lstat n path)) (IsSeen w path) (lstat w h path) (λ e. pure (some e))
        (lstat-Safe w h path) (λ e seen r. (stay r, seen)))
      handled
  where
    differ : true ≡ false → ⊥
    differ e = cc

    handled :
        (message : Text)
        → FromHelper (λ n. w.on_lstat n path) message
        → Safe (IsSeen w path) Anything (none_if_missing message)
    handled message from r = elim (Bool-cases (text_eq message (codes "not_found"))) [
      | inr other ↦ rw (other) (stay r, tt)
      | inl missing ↦ elim from [
        | inl (n, e) ↦
            rw (missing)
              (stay r, (n, e ∙ ap refused (text_eq→eq message (codes "not_found") missing)))
        | inr apart ↦ absurd (differ (sym missing ∙ apart))
      ]
    ]

pub check_within-Safe : (path : Text) → Safe Anything Anything (check_within path)
unfolding check_within
check_within-Safe path r = within (assert_canonical_within r.session.root path)
  where
    within :
        (o : Option PathError)
        → Quietly r (none_or_throw o r).1 × Holds Anything Anything (none_or_throw o r).0
    within none = (stay r, tt)
    within (some e) = (stay r, tt)

pub require_fingerprint-Safe :
    (w : FileWorld) (e : RemoteFileEntry) (expected : Text)
    → Safe (λ b. fingerprint w.hash e ≡ expected) Anything (require_fingerprint w e expected)
unfolding require_fingerprint
require_fingerprint-Safe w e expected r =
    elim (Bool-cases (text_eq (fingerprint w.hash e) expected)) [
      | inl same ↦ rw (same) (stay r, text_eq→eq (fingerprint w.hash e) expected same)
      | inr other ↦ rw (other) (stay r, tt)
    ]

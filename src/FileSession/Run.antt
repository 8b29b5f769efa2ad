-- ===== src/FileSession/Run.antt =====
-- One call of a file session of src/server/file-session.ts: its state, its requests to the helper,
-- and the connection. The helper and the crypto library are outside: `FileWorld` says what they
-- do in one call, by the number of the request. A promise that is awaited is a reply; while it is
-- awaited, `dispose` may be called.
use connexin.Prelude.{
  ℕ, Bool, true, false, ◌||◌, List, [], ◌∷◌, Option, none, some, ◌==◌, if◌then◌else◌, length, codes,
  text_eq, has_text,
}
use connexin.Utf8.{Text}
use connexin.FilePolicy.{FilePathLimits}
use connexin.Numbers.{JsNumber}
use connexin.FileSession.Entry.{RemoteFileEntry}
use connexin.FileSession.Lease.{Leases}

-- What the helper is asked for.
pub data Request : Type 0 where
  hello root_request : Request
  list_request : (path : Text) (limit : ℕ) → Request
  lstat_request realpath_request : (path : Text) → Request
  mkdir_request : (path : Text) → Request
  rename_request : (from to : Text) (overwrite : Bool) → Request
  remove_request : (path : Text) (directory : Bool) → Request
  upload_request : (path : Text) (bytes : JsNumber) (overwrite : Bool) → Request
  download_request : (path : Text) (max_bytes : JsNumber) → Request

-- An answer, the message of a rejection, or none before the timer.
pub data Reply (A : Type 0) : Type 0 where
  answered : A → Reply A
  refused : Text → Reply A
  late : Reply A

pub data Outcome (A : Type 0) : Type 0 where
  done : A → Outcome A
  threw : Text → Outcome A

-- The entries of `RuntimeConfig` that a file session reads.
pub record FileConfig : Type 0 where
  pub limits : FilePathLimits
  pub max_file_entries : ℕ
  pub max_file_metadata_bytes : ℕ
  pub max_file_operation_leases : ℕ
  pub max_transfer_bytes : ℕ
  pub max_embedded_download_bytes : ℕ
  pub file_operation_lease_ttl_ms : ℕ
  pub file_root_confinement_enforced : Bool

pub record FileWorld : Type 0 where
  pub config : FileConfig
  -- `Date.now()` at the start of the call, and where a lease is made.
  pub now : ℕ
  pub later : ℕ
  pub fresh_token : Text
  pub hash : Text → Text
  -- The helper of the factory, or the message of what the factory throws.
  pub spawned : Outcome ℕ
  pub on_hello : ℕ → Reply Bool
  pub on_root : ℕ → Reply Text
  pub on_realpath : ℕ → Text → Reply Text
  pub on_lstat : ℕ → Text → Reply RemoteFileEntry
  pub on_mutation : ℕ → Reply Bool
  -- The bytes that a transfer reports, and the bytes that came through the pipe.
  pub on_transfer : ℕ → Outcome JsNumber
  pub delivered : List Text
  -- Whether the caller's signal or the time limit has aborted a transfer.
  pub aborted_before : Bool
  pub aborted_during : Bool
  -- Whether `dispose` is called while this request waits.
  pub disposed_during : ℕ → Bool

-- The fields of `FileSession`. Between calls, `connecting` is a promise that was rejected.
pub record FileSession : Type 0 where
  pub helper : Option ℕ
  pub connecting : Option Text
  pub root : Text
  pub disposed : Bool
  pub leases : Leases

pub data HelperEffect : Type 0 where
  helper_spawned helper_disposed helper_drained : ℕ → HelperEffect

pub record FileRun : Type 0 where
  pub session : FileSession
  -- Newest first.
  pub sent : List Request
  pub effects : List HelperEffect

abbrev pub M : Type 0 → Type 0
M A = FileRun → Outcome A × FileRun

abbrev pub pure : {A : Type 0} → A → M A
pure a r = (done a, r)

abbrev pub throw : {A : Type 0} → Text → M A
throw message r = (threw message, r)

abbrev pub then_run : {A B : Type 0} → Outcome A × FileRun → (A → M B) → Outcome B × FileRun
then_run (done a, r) f = f a r
then_run (threw message, r) f = (threw message, r)

infixl 5 ◌>>=◌ ◌>>◌
abbrev pub ◌>>=◌ : {A B : Type 0} → M A → (A → M B) → M B
◌>>=◌ m f r = then_run (m r) f

abbrev pub ◌>>◌ : {A B : Type 0} → M A → M B → M B
m >> k = m >>= λ _. k

abbrev pub or_run : {A : Type 0} → Outcome A × FileRun → (Text → M A) → Outcome A × FileRun
or_run (done a, r) handler = (done a, r)
or_run (threw message, r) handler = handler message r

-- `try … catch (error) …`.
abbrev pub catch : {A : Type 0} → M A → (Text → M A) → M A
catch m handler r = or_run (m r) handler

-- `if (test) throw new Error(message)`.
abbrev pub refuse_if : Bool → Text → M Bool
refuse_if test message r = if test then (threw message, r) else (done true, r)

abbrev pub effect : HelperEffect → FileRun → FileRun
effect e r = record r { effects = e ∷ r.effects }

abbrev pub update_session : (FileSession → FileSession) → FileRun → FileRun
update_session f r = record r { session = f r.session }

abbrev pub dispose_helper : Option ℕ → FileRun → FileRun
dispose_helper none r = r
dispose_helper (some h) r = effect (helper_disposed h) r

-- `dispose`. The helper that is connecting is disposed of where the connection ends.
unfoldable pub dispose : FileRun → FileRun
dispose r =
    if r.session.disposed
    then r
    else dispose_helper r.session.helper
        (update_session (λ s. record s { disposed = true; leases = [] }) r)

abbrev pub forget : ℕ → Option ℕ → Option ℕ
forget h none = none
forget h (some k) = if k == h then none else some k

unfoldable pub poison : ℕ → FileRun → FileRun
poison h r =
    effect (helper_disposed h) (update_session (λ s. record s { helper = forget h s.helper }) r)

abbrev pub settle : {A : Type 0} → ℕ → Bool → Reply A → M A
settle h mutation (answered a) r = (done a, r)
settle h mutation (refused message) r =
    if text_eq message (codes "timeout") || text_eq message (codes "outcome_unknown")
    then (threw message, poison h r)
    else (threw message, r)
settle h mutation late r =
    (threw (if mutation then codes "outcome_unknown" else codes "timeout"), poison h r)

abbrev pub send : Request → FileRun → FileRun
send q r = record r { sent = q ∷ r.sent }

abbrev pub waited : FileWorld → ℕ → FileRun → FileRun
waited w n r = if w.disposed_during n then dispose r else r

-- `timed`, with the request that it is given.
unfoldable pub timed : {A : Type 0} → FileWorld → ℕ → Bool → Request → (ℕ → Reply A) → M A
unfolding dispose poison
timed w h mutation q answer r =
    let n = length r.sent in settle h mutation (answer n) (waited w n (send q r))

-- What is behind the two answers of a new helper.
unfoldable pub adopt : ℕ → Text → M ℕ
adopt h root r =
    if r.session.disposed
    then (threw (codes "session_closed"), effect (helper_disposed h) r)
    else (done h, update_session (λ s. record s { root = root; helper = some h }) r)

-- A connection that fails disposes of its helper.
abbrev pub greet : FileWorld → ℕ → M ℕ
greet w h =
    catch
      (do
        _ ← timed w h false hello w.on_hello
        root ← timed w h false root_request w.on_root
        adopt h root)
      (λ message r. (threw message, effect (helper_disposed h) r))

-- A factory that throws leaves its rejected promise in `connecting`.
unfoldable pub connect : FileWorld → Outcome ℕ → M ℕ
unfolding adopt timed
connect w (done h) r = greet w h (effect (helper_spawned h) r)
connect w (threw message) r =
    (threw message, update_session (λ s. record s { connecting = some message }) r)

abbrev pub reuse : FileWorld → Option ℕ → Option Text → M ℕ
reuse w (some h) pending = pure h
reuse w none (some message) = throw message
reuse w none none = connect w w.spawned

-- `getHelper`.
unfoldable pub get_helper : FileWorld → M ℕ
unfolding connect
get_helper w r =
    if r.session.disposed
    then (threw (codes "session_closed"), r)
    else reuse w r.session.helper r.session.connecting r

-- `isHelperLoss`.
unfoldable pub is_helper_loss : Text → Bool
is_helper_loss message =
    has_text message
      (codes "helper_closed" ∷ codes "helper_unavailable" ∷ codes "aborted" ∷ codes "timeout" ∷ [])

-- ===== src/SftpHelper.antt =====
-- `ChildSftpHelper` of src/server/sftp-helper.ts: the requests that wait for the helper process.
-- The process, its pipes and the `AbortSignal`s are outside: what they report is a `HelperEvent`.
-- `Lane` has the queue of transfers.
pub mod Occurrences
pub mod Accounting
pub mod Lane
use connexin.Prelude.{
  ℕ, suc, ◌+◌, ◌*◌, min, Bool, true, false, not, ◌&&◌, ◌||◌, List, [], ◌∷◌, ◌++◌, map, Option, none,
  some, ◌==◌, leb, if◌then◌else◌, codes, length,
}
use connexin.Utf8.{Text}
use connexin.Numbers.{JsNumber, natural, is_safe_integer}

-- How the promise of a request ends.
pub data Settlement : Type 0 where
  resolved refused : Text → Settlement

-- The fields of the class. `settled`, `sent` and `terminations` record calls to the outside: the
-- promises that were settled, the lines written, and the calls of `kill("SIGTERM")`.
pub record ChildSftpHelper : Type 0 where
  pub next_id : ℕ
  pub disposed : Bool
  pub max_pending : ℕ
  pub stderr_bytes : ℕ
  -- The keys of the `Map` of pending requests.
  pub pending : List ℕ
  pub settled : List (ℕ × Settlement)
  pub sent : List (ℕ × Text)
  pub terminations : ℕ

abbrev pub new_helper : ℕ → ChildSftpHelper
new_helper max_pending = record {
  next_id = 1;
  disposed = false;
  max_pending = max_pending;
  stderr_bytes = 0;
  pending = [];
  settled = [];
  sent = [];
  terminations = 0;
}

-- A request is turned away at once, or waits under its number.
pub data Requested : Type 0 where
  turned_away : Text → Requested
  queued : ℕ → Requested

abbrev pub enqueue : Text → ChildSftpHelper → ChildSftpHelper
enqueue body h = record h {
  next_id = suc h.next_id;
  pending = h.pending ++ h.next_id ∷ [];
  sent = (h.next_id, body) ∷ h.sent;
}

-- `request`; `writable` is `child.stdin?.writable`, `body` the action with its parameters.
unfoldable pub request :
    (writable : Bool) → (body : Text) → ChildSftpHelper → Requested × ChildSftpHelper
request writable body h =
    if h.disposed || not writable
    then (turned_away (codes "helper_closed"), h)
    else if leb h.max_pending (length h.pending)
    then (turned_away (codes "queue_full"), h)
    else (queued h.next_id, enqueue body h)

abbrev pub has_id : ℕ → List ℕ → Bool
has_id id [] = false
has_id id (x ∷ xs) = (x == id) || has_id id xs

unfoldable pub delete_id : ℕ → List ℕ → List ℕ
delete_id id [] = []
delete_id id (x ∷ xs) = let rest = delete_id id xs in if x == id then rest else x ∷ rest

-- `pending.get`, `pending.delete` and the settling of the promise, where the request still waits.
-- An `abort` listener is removed with its request.
unfoldable pub settle : ℕ → Settlement → ChildSftpHelper → ChildSftpHelper
unfolding delete_id
settle id outcome h =
    if has_id id h.pending
    then record h { pending = delete_id id h.pending; settled = (id, outcome) ∷ h.settled }
    else h

-- `rejectPending`.
unfoldable pub reject_pending : Text → ChildSftpHelper → ChildSftpHelper
reject_pending error h = record h {
  pending = [];
  settled = map (λ id. (id, refused error)) h.pending ++ h.settled;
}

unfoldable pub dispose : ChildSftpHelper → ChildSftpHelper
unfolding reject_pending
dispose h =
    if h.disposed
    then h
    else record (reject_pending (codes "helper_closed") (record h { disposed = true })) {
      terminations = suc h.terminations;
    }

-- What `JSON.parse` makes of a line: an error, `null`, or a value with these properties. A
-- `version` or `id` that is no number is `none`, and so is a `code` that is falsy; another `code` is
-- the text that `Error` makes of it.
pub data Line : Type 0 where
  garbage null_value : Line
  message : (version id : Option JsNumber) (code : Option Text) (payload : Text) → Line

abbrev is_version_one : Option JsNumber → Bool
is_version_one (some (natural n)) = n == 1
is_version_one other = false

abbrev outcome_of : Option Text → Text → Settlement
outcome_of none payload = resolved payload
outcome_of (some code) payload = refused code

-- Only natural numbers are keys of `pending`.
abbrev pub settle_number : JsNumber → Settlement → ChildSftpHelper → ChildSftpHelper
settle_number (natural id) outcome h = settle id outcome h
settle_number other outcome h = h

abbrev pub answer : Bool → Option JsNumber → Settlement → ChildSftpHelper → ChildSftpHelper
answer known none outcome h = dispose h
answer known (some id) outcome h =
    if not known || not (is_safe_integer id) then dispose h else settle_number id outcome h

-- `handleLine`; `none` where it throws, since `null` has no properties.
unfoldable pub handle_line : Line → ChildSftpHelper → Option ChildSftpHelper
unfolding dispose settle
handle_line garbage h = some (dispose h)
handle_line null_value h = none
handle_line (message version id code payload) h =
    some (answer (is_version_one version) id (outcome_of code payload) h)

-- The `close` listener.
unfoldable pub on_close : ChildSftpHelper → ChildSftpHelper
unfolding reject_pending
on_close h = reject_pending (codes "helper_closed") (record h { disposed = true })

-- The `error` listener of a stream.
unfoldable pub on_stream_error : ChildSftpHelper → ChildSftpHelper
unfolding reject_pending
on_stream_error h = if h.disposed then h else reject_pending (codes "helper_unavailable") h

-- The `data` listener of stderr.
abbrev pub on_stderr : ℕ → ChildSftpHelper → ChildSftpHelper
on_stderr bytes h = record h { stderr_bytes = min (64 * 1024) (h.stderr_bytes + bytes) }

pub data HelperEvent : Type 0 where
  requested : (writable : Bool) (body : Text) → HelperEvent
  line_read : Line → HelperEvent
  write_failed aborted stderr_read : ℕ → HelperEvent
  child_closed child_failed stream_failed disposed_of : HelperEvent

unfoldable pub on_event : HelperEvent → ChildSftpHelper → Option ChildSftpHelper
unfolding request handle_line settle on_close reject_pending on_stream_error dispose
on_event (requested writable body) h = some (request writable body h).1
on_event (line_read line) h = handle_line line h
on_event (write_failed id) h = some (settle id (refused (codes "helper_unavailable")) h)
on_event (aborted id) h = some (settle id (refused (codes "aborted")) h)
on_event (stderr_read bytes) h = some (on_stderr bytes h)
on_event child_closed h = some (on_close h)
on_event child_failed h = some (reject_pending (codes "helper_unavailable") h)
on_event stream_failed h = some (on_stream_error h)
on_event disposed_of h = some (dispose h)

unfoldable pub on_events : List HelperEvent → ChildSftpHelper → Option ChildSftpHelper
unfolding on_event
on_events [] h = some h
on_events (event ∷ events) h = elim (on_event event h) [
  | none ↦ none
  | some h' ↦ on_events events h'
]

-- ===== src/SessionManager/Access.antt =====
-- What src/server/session-manager.ts lets a caller do to a session: authentication, file sessions,
-- input, resizing, polling, and the confirmation of output.
pub mod Guards
use connexin.Prelude.{
  ℕ, Bool, true, false, not, ◌&&◌, ◌||◌, List, [], ◌∷◌, Option, none, some, if◌then◌else◌, codes,
  text_eq,
}
use connexin.Utf8.{Text}
use connexin.AuditLog.{number, end, field, output_confirmed}
use connexin.SessionManager.Session.{ConnexinSession, ConnexinPoll, poll_output}
use connexin.SessionManager.Manager.{
  World, Manager, pty_write, pty_resize, find_session, put_session, with_effect, audited,
  session_fields, record_activity,
}

abbrev pub get_session : Text → Manager → Option ConnexinSession
get_session id m = find_session id m.sessions

-- A caller that passed: the activity is recorded, and it gets the session.
unfoldable pub admit : World → Manager → ConnexinSession → Manager × Option ConnexinSession
admit w m s = (
  put_session (record s { last_activity_at = w.now }) m,
  some (record s { last_activity_at = w.now }),
)

unfoldable pub check_app :
    World → Text → Manager → Option ConnexinSession → Manager × Option ConnexinSession
unfolding admit
check_app w app_token m none = (m, none)
check_app w app_token m (some s) =
    if s.closing || not (text_eq s.app_token app_token) then (m, none) else admit w m s

unfoldable pub authenticate_app : World → Text → Text → Manager → Manager × Option ConnexinSession
unfolding check_app
authenticate_app w id app_token m = check_app w app_token m (find_session id m.sessions)

unfoldable pub check_ws :
    World → Text → Manager → Option ConnexinSession → Manager × Option ConnexinSession
unfolding admit
check_ws w ws_token m none = (m, none)
check_ws w ws_token m (some s) =
    if not (text_eq s.ws_token ws_token) then (m, none) else admit w m s

unfoldable pub authenticate_ws_capability :
    World → Text → Text → Manager → Manager × Option ConnexinSession
unfolding check_ws
authenticate_ws_capability w id ws_token m = check_ws w ws_token m (find_session id m.sessions)

-- The loop of `authenticateFileCapability`. Tokens are base64url text, equal as bytes exactly if
-- they are equal as text; the constant-time comparison is outside the model.
unfoldable pub file_holder : Text → List ConnexinSession → Option ConnexinSession
file_holder file_token [] = none
file_holder file_token (s ∷ rest) =
    if text_eq file_token s.file_token && not s.closing then some s else file_holder file_token rest

unfoldable pub admit_found :
    World → Manager → Option ConnexinSession → Manager × Option ConnexinSession
unfolding admit
admit_found w m none = (m, none)
admit_found w m (some s) = admit w m s

unfoldable pub authenticate_file_capability :
    World → Text → Manager → Manager × Option ConnexinSession
unfolding file_holder admit_found
authenticate_file_capability w file_token m = admit_found w m (file_holder file_token m.sessions)

-- `session.fileSession ??= new FileSession(...)`.
abbrev file_session_of : World → ConnexinSession → ℕ
file_session_of w s = elim s.file_session [ none ↦ w.fresh_file_session | some f ↦ f ]

unfoldable pub open_files : World → Manager → Option ConnexinSession → Manager × Option ℕ
open_files w m none = (m, none)
open_files w m (some s) =
    let f = file_session_of w s in
    if s.closing
    then (m, none)
    else (put_session (record s { file_session = some f; last_activity_at = w.now }) m, some f)

unfoldable pub get_file_session : World → Text → Manager → Manager × Option ℕ
unfolding open_files
get_file_session w id m = open_files w m (find_session id m.sessions)

pub data SessionDropReason : Type 0 where
  missing has_exited is_closing : SessionDropReason

-- The session with its terminal, or why nothing can be delivered to it.
pub data Deliverable : Type 0 where
  target : ConnexinSession → ℕ → Deliverable
  dropped : SessionDropReason → Deliverable

unfoldable pub live_terminal : ConnexinSession → Option ℕ → Deliverable
live_terminal s none = dropped missing
live_terminal s (some pty) =
    if s.exited then dropped has_exited else if s.closing then dropped is_closing else target s pty

unfoldable pub found_terminal : Option ConnexinSession → Deliverable
unfolding live_terminal
found_terminal none = dropped missing
found_terminal (some s) = live_terminal s s.pty

unfoldable pub deliverable_session : Text → Manager → Deliverable
unfolding found_terminal
deliverable_session id m = found_terminal (find_session id m.sessions)

-- `none` is a delivered write or resize.
unfoldable pub write_to : World → Text → Manager → Deliverable → Manager × Option SessionDropReason
write_to w text m (dropped reason) = (m, some reason)
write_to w text m (target s pty) =
    (put_session (record s { last_activity_at = w.now }) (with_effect (pty_write pty text) m), none)

unfoldable pub write_input : World → Text → Text → Manager → Manager × Option SessionDropReason
unfolding write_to
write_input w id text m = write_to w text m (deliverable_session id m)

unfoldable pub resize_to :
    World → ℕ → ℕ → Manager → Deliverable → Manager × Option SessionDropReason
resize_to w cols rows m (dropped reason) = (m, some reason)
resize_to w cols rows m (target s pty) = (
  put_session (record s { last_activity_at = w.now }) (with_effect (pty_resize pty cols rows) m),
  none,
)

unfoldable pub resize_session :
    World → Text → (cols rows : ℕ) → Manager → Manager × Option SessionDropReason
unfolding resize_to
resize_session w id cols rows m = resize_to w cols rows m (deliverable_session id m)

unfoldable pub poll_found :
    World → Manager → ℕ → Option ConnexinSession → Manager × Option ConnexinPoll
poll_found w m after_seq none = (m, none)
poll_found w m after_seq (some s) =
    (put_session (record s { last_activity_at = w.now }) m, some (poll_output s after_seq))

unfoldable pub poll_session : World → Text → ℕ → Manager → Manager × Option ConnexinPoll
unfolding poll_found
poll_session w id after_seq m = poll_found w m after_seq (find_session id m.sessions)

unfoldable pub confirm_found : World → ℕ → Manager → Option ConnexinSession → Manager × Bool
confirm_found w byte_count m none = (m, false)
confirm_found w byte_count m (some s) = (
  put_session (record s { last_activity_at = w.now })
      (audited w output_confirmed
        (session_fields s (field (codes "byteCount") (number byte_count) end)) m),
  true,
)

unfoldable pub record_output_confirmed : World → Text → ℕ → Manager → Manager × Bool
unfolding confirm_found
record_output_confirmed w id byte_count m =
    confirm_found w byte_count m (find_session id m.sessions)

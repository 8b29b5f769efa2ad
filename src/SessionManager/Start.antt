-- ===== src/SessionManager/Start.antt =====
-- `startSession` of src/server/session-manager.ts, and the listeners that it registers.
use connexin.Prelude.{ℕ, true, not, List, [], ◌∷◌, ◌++◌, Option, none, some, if◌then◌else◌, codes}
use connexin.Utf8.{Text}
use connexin.AuditLog.{
  Value, null, number, end, field, session_started, session_exited, ssh_start_failed,
}
use connexin.SessionManager.Session.{ConnexinSession, receive_output}
use connexin.SessionManager.Manager.{
  World, Manager, find_session, put_session, audited, session_fields, identity_fields,
}
use connexin.SessionManager.Close.{dispose_registered_listeners, kill_pty}

pub data StartResult : Type 0 where
  not_started : StartResult
  started : ConnexinSession → StartResult
  start_threw : StartResult

-- The audit record of a failure; its `error` is the text of an exception from outside.
abbrev start_failed : World → ConnexinSession → Manager → Manager
start_failed w s m = audited w ssh_start_failed (session_fields s end) m

-- A registration threw: the listeners are disposed of and the terminal is killed. If that fails
-- too, the session keeps the terminal and is closing.
unfoldable pub undo_start : World → ConnexinSession → ℕ → List ℕ → Manager → Manager × StartResult
undo_start w s pty registered m =
    let disposed = (dispose_registered_listeners w (s.disposables ++ registered) m).0 in
    let (killed, terminated) = kill_pty w (some pty) disposed in
    let s' = record s {
      pty = if terminated then none else some pty;
      closing = not terminated;
      disposables = [];
    } in
    (start_failed w s (put_session s' killed), start_threw)

unfoldable pub register_exit :
    World → ConnexinSession → ℕ → ℕ → Manager → Option ℕ → Manager × StartResult
unfolding undo_start
register_exit w s pty on_data m none = undo_start w s pty (on_data ∷ []) m
register_exit w s pty on_data m (some on_exit) =
    let s' = record s {
      pty = some pty;
      disposables = s.disposables ++ on_data ∷ on_exit ∷ [];
      last_activity_at = w.now;
    } in
    (put_session s' (audited w session_started (session_fields s end) m), started s')

unfoldable pub register_data :
    World → ConnexinSession → ℕ → Manager → Option ℕ → Manager × StartResult
unfolding register_exit
register_data w s pty m none = undo_start w s pty [] m
register_data w s pty m (some on_data) = register_exit w s pty on_data m w.on_exit_handle

unfoldable pub spawn_terminal : World → ConnexinSession → Manager → Option ℕ → Manager × StartResult
unfolding register_data
spawn_terminal w s m none = (start_failed w s m, start_threw)
spawn_terminal w s m (some pty) = register_data w s pty m w.on_data_handle

unfoldable pub start_unless : World → Manager → ConnexinSession → Option ℕ → Manager × StartResult
unfolding spawn_terminal
start_unless w m s (some pty) = (m, started s)
start_unless w m s none = spawn_terminal w s m w.spawned

unfoldable pub start_found : World → Manager → Option ConnexinSession → Manager × StartResult
unfolding start_unless
start_found w m none = (m, not_started)
start_found w m (some s) = if s.closing then (m, not_started) else start_unless w m s s.pty

unfoldable pub start_session : World → Text → Manager → Manager × StartResult
unfolding start_found
start_session w id m = start_found w m (find_session id m.sessions)

-- The `onData` listener; a session that left the map is observed by nobody.
unfoldable pub data_found : World → Text → Manager → Option ConnexinSession → Manager
data_found w text m none = m
data_found w text m (some s) =
    put_session
      (receive_output m.config.max_scrollback_bytes (record s { last_activity_at = w.now }) text) m

unfoldable pub on_data : World → Text → Text → Manager → Manager
unfolding data_found
on_data w id text m = data_found w text m (find_session id m.sessions)

abbrev exit_code_value : Option ℕ → Value
exit_code_value none = null
exit_code_value (some n) = number n

-- The listener keeps the session, so an exit is recorded also where the session has left the map.
unfoldable pub exit_found :
    World → (id device : Text) → Option ℕ → Manager → Option ConnexinSession → Manager
exit_found w id device exit_code m none =
    audited w session_exited
      (identity_fields id device (field (codes "exitCode") (exit_code_value exit_code) end)) m
exit_found w id device exit_code m (some s) =
    audited w session_exited
      (session_fields s (field (codes "exitCode") (exit_code_value exit_code) end))
      (put_session (record s { exited = true; exit_code = exit_code; last_activity_at = w.now }) m)

-- The `onExit` listener of the session with this id and device.
unfoldable pub on_exit : World → (id device : Text) → Option ℕ → Manager → Manager
unfolding exit_found
on_exit w id device exit_code m = exit_found w id device exit_code m (find_session id m.sessions)

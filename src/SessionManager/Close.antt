-- ===== src/SessionManager/Close.antt =====
-- Closing and expiry in src/server/session-manager.ts.
pub mod Calls
pub mod Closing
use connexin.Prelude.{
  ℕ, suc, ◌+◌, Bool, true, false, ◌||◌, List, [], ◌∷◌, ◌++◌, Option, none, some, leb, if◌then◌else◌,
  codes,
}
use connexin.Utf8.{Text}
use connexin.AuditLog.{Fields, text, end, field, session_closed, session_expired}
use connexin.SessionManager.Session.{ConnexinSession}
use connexin.SessionManager.Audit.{LifecycleStep, dispose_listener, pty_kill, close_listener}
use connexin.SessionManager.Manager.{
  World, Manager, pty_killed, listener_disposed, file_session_disposed, closed_listener_called,
  find_session, delete_session, put_session, with_effect, audited, audit_failures, session_fields,
}

-- `disposeRegisteredListeners`: each registration is disposed of, whatever the others throw.
unfoldable pub dispose_registered_listeners :
    World → List ℕ → Manager → Manager × List LifecycleStep
dispose_registered_listeners w [] m = (m, [])
dispose_registered_listeners w (d ∷ rest) m =
    let (m', failures) =
      dispose_registered_listeners w rest (with_effect (listener_disposed d) m) in
    (m', if w.dispose_throws d then dispose_listener ∷ failures else failures)

-- `killPty`; a session with no terminal has nothing to kill.
unfoldable pub kill_pty : World → Option ℕ → Manager → Manager × Bool
kill_pty w none m = (m, true)
kill_pty w (some pty) m =
    if w.kill_throws pty then (m, false) else (with_effect (pty_killed pty) m, true)

-- The loop over `closedListeners`.
unfoldable pub notify_closed : World → Text → List ℕ → Manager → Manager × List LifecycleStep
notify_closed w id [] m = (m, [])
notify_closed w id (l ∷ rest) m =
    let (m', failures) = notify_closed w id rest (with_effect (closed_listener_called l id) m) in
    (m', if w.listener_throws l then close_listener ∷ failures else failures)

-- `fileSession?.dispose()` and the promise of its draining.
release_files : Option ℕ → Manager → Manager
release_files none m = m
release_files (some f) m = record m {
  file_close_promises = f ∷ m.file_close_promises;
  effects = file_session_disposed f ∷ m.effects;
}

pub record CloseResult : Type 0 where
  pub closed : Bool
  pub failures : List LifecycleStep

-- After the terminal is gone.
finish_close : World → ConnexinSession → List LifecycleStep → Manager → Manager × CloseResult
finish_close w s failures m =
    let removed = record m { sessions = delete_session s.id m.sessions } in
    let fields = session_fields s end in
    let (notified, more) =
      notify_closed w s.id m.closed_listeners (audited w session_closed fields removed) in
    (
      notified,
      record {
        closed = true;
        failures = failures ++ (audit_failures w session_closed fields removed ++ more);
      },
    )

after_kill : World → ConnexinSession → List LifecycleStep → Manager × Bool → Manager × CloseResult
unfolding finish_close
after_kill w s failures (m, true) = finish_close w s failures m
after_kill w s failures (m, false) =
    (m, record { closed = false; failures = failures ++ pty_kill ∷ [] })

-- `closeSessionWithDiagnostics`; `disposables.splice(0)` empties the list of the session.
unfoldable pub close_session_with_diagnostics :
    World → ConnexinSession → Manager → Manager × CloseResult
unfolding release_files after_kill dispose_registered_listeners kill_pty notify_closed
close_session_with_diagnostics w s m =
    let marked = put_session (record s { closing = true; disposables = [] }) m in
    let (disposed, failures) =
      dispose_registered_listeners w s.disposables (release_files s.file_session marked) in
    after_kill w s failures (kill_pty w s.pty disposed)

unfoldable pub close_found : World → Manager → Option ConnexinSession → Manager × Bool
close_found w m none = (m, false)
close_found w m (some s) =
    let (m', result) = close_session_with_diagnostics w s m in (m', result.closed)

unfoldable pub close_session : World → Text → Manager → Manager × Bool
unfolding close_found
close_session w id m = close_found w m (find_session id m.sessions)

abbrev pub expired_by_age : World → Manager → ConnexinSession → Bool
expired_by_age w m s = leb (s.created_at + m.config.max_session_age_ms) w.now

abbrev pub expired_by_idle : World → Manager → ConnexinSession → Bool
expired_by_idle w m s = leb (s.last_activity_at + m.config.idle_grace_ms) w.now

unfoldable pub expire_session : World → ConnexinSession → Manager → Manager × Bool
expire_session w s m =
    let reason = if expired_by_age w m s then codes "age" else codes "idle" in
    let noted =
      audited w session_expired (session_fields s (field (codes "reason") (text reason) end)) m in
    let (m', result) = close_session_with_diagnostics w s noted in (m', result.closed)

-- The loop of `cleanupExpiredSessions` over a copy of the sessions.
unfoldable pub cleanup_from : World → List ConnexinSession → Manager → Manager × ℕ
unfolding expire_session
cleanup_from w [] m = (m, 0)
cleanup_from w (s ∷ rest) m =
    let is_expired = expired_by_age w m s || expired_by_idle w m s in
    let (after, closed) = if is_expired then expire_session w s m else (m, false) in
    let (last, count) = cleanup_from w rest after in (last, if closed then suc count else count)

unfoldable pub cleanup_expired_sessions : World → Manager → Manager × ℕ
unfolding cleanup_from
cleanup_expired_sessions w m = cleanup_from w m.sessions m

-- `closeAll`: each session that is still in the map.
unfoldable pub close_each : World → List ConnexinSession → Manager → Manager
close_each w [] m = m
close_each w (s ∷ rest) m = close_each w rest (close_session w s.id m).0

unfoldable pub close_all : World → Manager → Manager
unfolding close_each
close_all w m = close_each w m.sessions m

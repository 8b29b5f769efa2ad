-- ===== src/SessionManager/Close/Calls.antt =====
-- What `closeSession` of src/server/session-manager.ts calls outside, in its order.
use connexin.Prelude.{
  ◌≡◌, refl, sym, ap, ◌∙◌, Bool, true, false, List, [], ◌∷◌, ◌++◌, map, Option, none, some, inl,
  inr, if◌then◌else◌, Bool-cases, ℕ,
}
use connexin.Utf8.{Text}
use connexin.AuditLog.{end, session_closed}
use connexin.SessionManager.Session.{ConnexinSession}
use connexin.SessionManager.Audit.{AuditState, LifecycleStep, record_audit_event_safe}
use connexin.SessionManager.Manager.{
  World, Manager, Effect, pty_killed, listener_disposed, file_session_disposed,
  closed_listener_called, delete_session, put_session, with_effect, audited, session_fields,
}
use connexin.SessionManager.Close.{
  dispose_registered_listeners, kill_pty, notify_closed, release_files, finish_close, after_kill,
  close_session_with_diagnostics,
}

-- Whether the session has a terminal that cannot be killed.
abbrev pub survives : World → Option ℕ → Bool
survives w none = false
survives w (some pty) = w.kill_throws pty

-- The record of the calls outside, newest first, after more calls.
abbrev pub after_calls : List Effect → List Effect → List Effect
after_calls [] past = past
after_calls (call ∷ calls) past = after_calls calls (call ∷ past)

after_calls-append :
    (xs ys past : List Effect) → after_calls (xs ++ ys) past ≡ after_calls ys (after_calls xs past)
after_calls-append [] ys past = refl
after_calls-append (x ∷ xs) ys past = after_calls-append xs ys (x ∷ past)

abbrev file_calls : Option ℕ → List Effect
file_calls none = []
file_calls (some f) = file_session_disposed f ∷ []

abbrev terminal_calls : Option ℕ → List Effect
terminal_calls none = []
terminal_calls (some pty) = pty_killed pty ∷ []

-- Killing the terminal and telling the listeners, or nothing if the terminal cannot be killed.
abbrev last_calls : World → Text → Option ℕ → List ℕ → List Effect
last_calls w id pty listeners =
    if survives w pty
    then []
    else terminal_calls pty ++ map (λ l. closed_listener_called l id) listeners

-- The file session is disposed of, then each registration of the terminal, then the terminal is
-- killed, then each listener of the manager is told.
abbrev pub close_calls : World → ConnexinSession → List ℕ → List Effect
close_calls w s listeners =
    file_calls s.file_session
    ++ (map listener_disposed s.disposables ++ last_calls w s.id s.pty listeners)

-- The file session whose draining is awaited.
abbrev pub draining : Option ℕ → List ℕ → List ℕ
draining none promises = promises
draining (some f) promises = f ∷ promises

-- The audit record of a session that is closed.
abbrev pub closed_audit : World → ConnexinSession → AuditState → AuditState
closed_audit w s audit =
    (record_audit_event_safe w.sink session_closed (session_fields s end) audit).0

-- These calls were made, and the rest of the state is as it was.
record Calls (calls : List Effect) (m m' : Manager) : Type 0 where
  made : m'.effects ≡ after_calls calls m.effects
  promises : m'.file_close_promises ≡ m.file_close_promises
  audit : m'.audit ≡ m.audit
  listeners : m'.closed_listeners ≡ m.closed_listeners

nothing_made : (m : Manager) → Calls [] m m
nothing_made m = record { made = refl; promises = refl; audit = refl; listeners = refl }

call-Calls :
    (call : Effect) (calls : List Effect) (m m' : Manager)
    → Calls calls (with_effect call m) m'
    → Calls (call ∷ calls) m m'
call-Calls call calls m m' c = record {
  made = c.made;
  promises = c.promises;
  audit = c.audit;
  listeners = c.listeners;
}

dispose-Calls :
    (w : World) (ds : List ℕ) (m : Manager)
    → Calls (map listener_disposed ds) m (dispose_registered_listeners w ds m).0
unfolding dispose_registered_listeners
dispose-Calls w [] m = nothing_made m
dispose-Calls w (d ∷ ds) m =
    call-Calls (listener_disposed d) (map listener_disposed ds) m _
      (dispose-Calls w ds (with_effect (listener_disposed d) m))

notify-Calls :
    (w : World) (id : Text) (ls : List ℕ) (m : Manager)
    → Calls (map (λ l. closed_listener_called l id) ls) m (notify_closed w id ls m).0
unfolding notify_closed
notify-Calls w id [] m = nothing_made m
notify-Calls w id (l ∷ ls) m =
    call-Calls (closed_listener_called l id) (map (λ l. closed_listener_called l id) ls) m _
      (notify-Calls w id ls (with_effect (closed_listener_called l id) m))

-- What closing has done to the rest of the state.
pub record Released (w : World) (s : ConnexinSession) (m m' : Manager) : Type 0 where
  pub calls : m'.effects ≡ after_calls (close_calls w s m.closed_listeners) m.effects
  pub drains : m'.file_close_promises ≡ draining s.file_session m.file_close_promises
  pub audit : m'.audit ≡ (if survives w s.pty then m.audit else closed_audit w s m.audit)

-- From the killing of the terminal on.
record Ended (w : World) (s : ConnexinSession) (pty : Option ℕ) (d m' : Manager) : Type 0 where
  calls : m'.effects ≡ after_calls (last_calls w s.id pty d.closed_listeners) d.effects
  drains : m'.file_close_promises ≡ d.file_close_promises
  audit : m'.audit ≡ (if survives w pty then d.audit else closed_audit w s d.audit)

after_kill-Ended :
    (w : World) (s : ConnexinSession) (failures : List LifecycleStep) (pty : Option ℕ) (d : Manager)
    → Ended w s pty d (after_kill w s failures (kill_pty w pty d)).0
unfolding after_kill finish_close kill_pty
after_kill-Ended w s failures none d =
    let told = notify-Calls w s.id d.closed_listeners (
      audited w session_closed (session_fields s end)
        (record d { sessions = delete_session s.id d.sessions })) in
    record { calls = told.made; drains = told.promises; audit = told.audit }
after_kill-Ended w s failures (some pty) d = elim (Bool-cases (w.kill_throws pty)) [
  | inl throws ↦
      rw (throws) (record { calls = rw (throws) refl; drains = refl; audit = rw (throws) refl })
  | inr works ↦
      let killed = with_effect (pty_killed pty) d in
      let told = notify-Calls w s.id d.closed_listeners (
        audited w session_closed (session_fields s end)
          (record killed { sessions = delete_session s.id d.sessions })) in
      rw (works) (record {
        calls = rw (works) told.made;
        drains = told.promises;
        audit = rw (works) told.audit;
      })
]

release_files_lem :
    (f : Option ℕ) (m : Manager)
    → ((release_files f m).effects ≡ after_calls (file_calls f) m.effects)
      × ((release_files f m).file_close_promises ≡ draining f m.file_close_promises)
      × ((release_files f m).audit ≡ m.audit)
      × ((release_files f m).closed_listeners ≡ m.closed_listeners)
unfolding release_files
release_files_lem none m = (refl, refl, refl, refl)
release_files_lem (some f) m = (refl, refl, refl, refl)

pub close_session_with_diagnostics-Released :
    (w : World) (s : ConnexinSession) (m : Manager)
    → Released w s m (close_session_with_diagnostics w s m).0
unfolding close_session_with_diagnostics
close_session_with_diagnostics-Released w s m =
    let start = put_session (record s { closing = true; disposables = [] }) m in
    let files = release_files s.file_session start in
    let (disposed, failures) = dispose_registered_listeners w s.disposables files in
    let (file_made, file_drains, file_audit, file_listeners) =
      release_files_lem s.file_session start in
    let d = dispose-Calls w s.disposables files in
    let e = after_kill-Ended w s failures s.pty disposed in
    let rest = last_calls w s.id s.pty m.closed_listeners in
    record {
      calls =
          e.calls
          ∙ ap (λ ls. after_calls (last_calls w s.id s.pty ls) disposed.effects)
              (d.listeners ∙ file_listeners)
          ∙ ap (after_calls rest)
              (d.made ∙ ap (after_calls (map listener_disposed s.disposables)) file_made)
          ∙ sym (
              after_calls-append (file_calls s.file_session)
                (map listener_disposed s.disposables ++ rest) m.effects
              ∙ after_calls-append (map listener_disposed s.disposables) rest
                  (after_calls (file_calls s.file_session) m.effects));
      drains = e.drains ∙ d.promises ∙ file_drains;
      audit =
          e.audit
          ∙ ap (λ a. if survives w s.pty then a else closed_audit w s a) (d.audit ∙ file_audit);
    }

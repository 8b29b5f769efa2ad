-- ===== src/SessionManager/Manager.antt =====
-- The state of `ConnexinSessionManager` (src/server/session-manager.ts). The clock, the random
-- identifiers, the terminal factory, the listeners and the audit sink are outside: `World` says
-- what they do in one call. Mutated session objects are the entries of `sessions`, found by id.
pub mod Sessions
use connexin.Prelude.{
  ℕ, Bool, true, false, List, [], ◌∷◌, Option, none, some, if◌then◌else◌, codes, text_eq,
}
use connexin.Utf8.{Text}
use connexin.AuditLog.{AuditEvent, Fields, text, field}
use connexin.SessionManager.Session.{ConnexinSession, DeviceDanger}
use connexin.SessionManager.Audit.{Sink, AuditState, LifecycleStep, record_audit_event_safe}

-- The entries of `RuntimeConfig` that the manager reads.
pub record Config : Type 0 where
  pub max_sessions : ℕ
  pub max_device_length : ℕ
  pub max_suggested_command_length : ℕ
  pub max_reason_length : ℕ
  pub max_scrollback_bytes : ℕ
  pub max_session_age_ms : ℕ
  pub idle_grace_ms : ℕ

pub record DeviceMetadata : Type 0 where
  pub label : Option Text
  pub group : Option Text
  pub danger : Option DeviceDanger
  pub default_shell : Option Text

pub record World : Type 0 where
  pub now : ℕ
  pub sink : Sink
  pub kill_throws : ℕ → Bool
  pub dispose_throws : ℕ → Bool
  pub listener_throws : ℕ → Bool
  -- What the terminal factory and the two registrations return; `none` where they throw.
  pub spawned : Option ℕ
  pub on_data_handle : Option ℕ
  pub on_exit_handle : Option ℕ
  -- `randomUUID()`, and the three calls of `token()`.
  pub fresh_id : Text
  pub fresh_app_token : Text
  pub fresh_ws_token : Text
  pub fresh_file_token : Text
  -- The handle of a new `FileSession`.
  pub fresh_file_session : ℕ

-- Calls on the objects outside, newest first.
pub data Effect : Type 0 where
  pty_write : ℕ → Text → Effect
  pty_resize : ℕ → ℕ → ℕ → Effect
  pty_killed : ℕ → Effect
  listener_disposed : ℕ → Effect
  file_session_disposed : ℕ → Effect
  closed_listener_called : ℕ → Text → Effect

pub record Manager : Type 0 where
  pub config : Config
  pub allowed_hosts : List Text
  pub device_metadata : List (Text × DeviceMetadata)
  -- In the order of insertion, as a `Map` iterates.
  pub sessions : List ConnexinSession
  pub closed_listeners : List ℕ
  -- Handles of file sessions that are draining.
  pub file_close_promises : List ℕ
  pub audit : AuditState
  pub effects : List Effect

-- The `Map` of sessions.
unfoldable pub find_session : Text → List ConnexinSession → Option ConnexinSession
find_session id [] = none
find_session id (s ∷ rest) = if text_eq s.id id then some s else find_session id rest

unfoldable pub set_session : ConnexinSession → List ConnexinSession → List ConnexinSession
set_session session [] = session ∷ []
set_session session (s ∷ rest) =
    if text_eq s.id session.id then session ∷ rest else s ∷ set_session session rest

unfoldable pub delete_session : Text → List ConnexinSession → List ConnexinSession
delete_session id [] = []
delete_session id (s ∷ rest) = if text_eq s.id id then rest else s ∷ delete_session id rest

abbrev pub put_session : ConnexinSession → Manager → Manager
put_session session m = record m { sessions = set_session session m.sessions }

abbrev pub with_effect : Effect → Manager → Manager
with_effect e m = record m { effects = e ∷ m.effects }

abbrev pub audited : World → AuditEvent → Fields → Manager → Manager
audited w event fields m = record m {
  audit = (record_audit_event_safe w.sink event fields m.audit).0;
}

abbrev pub audit_failures : World → AuditEvent → Fields → Manager → List LifecycleStep
audit_failures w event fields m = (record_audit_event_safe w.sink event fields m.audit).1

abbrev pub identity_fields : (id device : Text) → Fields → Fields
identity_fields id device rest =
    field (codes "sessionId") (text id) (field (codes "device") (text device) rest)

abbrev pub session_fields : ConnexinSession → Fields → Fields
session_fields s rest = identity_fields s.id s.public_summary.device rest

unfoldable pub touch : World → Manager → Option ConnexinSession → Manager × Bool
touch w m none = (m, false)
touch w m (some s) = (put_session (record s { last_activity_at = w.now }) m, true)

unfoldable pub record_activity : World → Text → Manager → Manager × Bool
unfolding touch
record_activity w id m = touch w m (find_session id m.sessions)

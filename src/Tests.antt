-- ===== src/Tests.antt =====
-- Concrete inputs, at which the theorems are applied.
pub mod Texts
pub mod Records
pub mod Settings
pub mod Listings
pub mod Helpers
pub mod Devices
pub mod Sessions
pub mod Configurations
pub mod Paths
pub mod Files
use connexin.Prelude.{ℕ, zero, suc, true, false, List, [], ◌∷◌, none, some, codes, ◌==◌}
use connexin.Utf8.{Text}
use connexin.SessionManager.Session.{ConnexinSession, ConnexinPublicSession}
use connexin.SessionManager.Audit.{Sink, new_audit_state}
use connexin.SessionManager.Manager.{Config, World, Manager}
use connexin.SessionManager.Create.{ConnexinSessionInput, new_session}

-- An `a`, a smiling face as a surrogate pair, and a `b`.
abbrev pub smile : Text
smile = b'a' ∷ 0xd83d ∷ 0xde00 ∷ b'b' ∷ []

-- The second call fails.
abbrev pub flaky_sink : Sink
flaky_sink (suc zero) = some 7
flaky_sink n = none

abbrev pub small_config : Config
small_config = record {
  max_sessions = 2;
  max_device_length = 64;
  max_suggested_command_length = 100;
  max_reason_length = 100;
  max_scrollback_bytes = 8;
  max_session_age_ms = 1000;
  idle_grace_ms = 100;
}

abbrev pub calm : World
calm = record {
  now = 50;
  sink = flaky_sink;
  kill_throws = λ pty. pty == 9;
  dispose_throws = λ d. false;
  listener_throws = λ l. false;
  spawned = some 5;
  on_data_handle = some 1;
  on_exit_handle = some 2;
  fresh_id = codes "s3";
  fresh_app_token = codes "app";
  fresh_ws_token = codes "ws";
  fresh_file_token = codes "file";
  fresh_file_session = 4;
}

abbrev pub office : Manager
office = record {
  config = small_config;
  allowed_hosts = codes "nas" ∷ [];
  device_metadata = [];
  sessions = [];
  closed_listeners = 1 ∷ [];
  file_close_promises = [];
  audit = new_audit_state;
  effects = [];
}

abbrev pub nas_summary : ConnexinPublicSession
nas_summary = record {
  session_id = codes "s1";
  device = codes "nas";
  reason = none;
  suggested_command = none;
  device_label = none;
  device_group = none;
  device_danger = none;
  device_default_shell = none;
}

abbrev pub nas_input : ConnexinSessionInput
nas_input = record { device = codes "nas"; reason = none; suggested = none }

-- A session with a terminal, and one whose terminal could not be killed.
abbrev pub open_session : ConnexinSession
open_session = record (new_session calm office nas_summary) { id = codes "s1"; pty = some 5 }

abbrev pub shut_session : ConnexinSession
shut_session = record (new_session calm office nas_summary) {
  id = codes "s2";
  pty = some 9;
  closing = true;
}

abbrev pub busy_office : Manager
busy_office = record office { sessions = open_session ∷ shut_session ∷ [] }

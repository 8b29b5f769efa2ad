-- ===== src/SessionManager/History.antt =====
-- Sequences of calls of the session manager (src/server/session-manager.ts), in any order.
pub mod Change
pub mod Steps
pub mod Lifetimes
pub mod Cleanup
pub mod Permanence
use connexin.Prelude.{ℕ, List, [], ◌∷◌, Option}
use connexin.Utf8.{Text}
use connexin.SessionManager.Manager.{World, Manager, record_activity}
use connexin.SessionManager.Create.{ConnexinSessionInput, create_session}
use connexin.SessionManager.Start.{start_session, on_data, on_exit}
use connexin.SessionManager.Access.{
  authenticate_app, authenticate_ws_capability, authenticate_file_capability, get_file_session,
  write_input, resize_session, poll_session, record_output_confirmed,
}
use connexin.SessionManager.Close.{close_session, cleanup_expired_sessions, close_all}

-- A call, or an event of a terminal, with its arguments.
pub data Operation : Type 0 where
  create : ConnexinSessionInput → Operation
  start activity close open_files : Text → Operation
  data_event : Text → Text → Operation
  exit_event : (id device : Text) → Option ℕ → Operation
  app_auth ws_auth : Text → Text → Operation
  file_auth : Text → Operation
  write : Text → Text → Operation
  resize : Text → ℕ → ℕ → Operation
  poll confirm : Text → ℕ → Operation
  cleanup close_everything : Operation

unfoldable pub perform : World → Operation → Manager → Manager
perform w (create input) m = (create_session w input m).0
perform w (start id) m = (start_session w id m).0
perform w (activity id) m = (record_activity w id m).0
perform w (close id) m = (close_session w id m).0
perform w (open_files id) m = (get_file_session w id m).0
perform w (data_event id text) m = on_data w id text m
perform w (exit_event id device code) m = on_exit w id device code m
perform w (app_auth id token) m = (authenticate_app w id token m).0
perform w (ws_auth id token) m = (authenticate_ws_capability w id token m).0
perform w (file_auth token) m = (authenticate_file_capability w token m).0
perform w (write id text) m = (write_input w id text m).0
perform w (resize id cols rows) m = (resize_session w id cols rows m).0
perform w (poll id after) m = (poll_session w id after m).0
perform w (confirm id bytes) m = (record_output_confirmed w id bytes m).0
perform w cleanup m = (cleanup_expired_sessions w m).0
perform w close_everything m = close_all w m

unfoldable pub run_history : List (World × Operation) → Manager → Manager
run_history [] m = m
run_history ((w, op) ∷ rest) m = run_history rest (perform w op m)

-- ===== src/SessionManager/History/Permanence.antt =====
-- Invariants of every history of the session manager (src/server/session-manager.ts).
use connexin.Prelude.{
  ℕ, ◌≤◌, ◌≡◌, refl, sym, ap, subst, ◌∙◌, true, false, not, ◌||◌, List, [], ◌∷◌, Option, none, some,
  inl, inr, if◌then◌else◌, Bool-cases, leb, length, All, text_eq, leb-false→lt,
}
use connexin.Utf8.{Text}
use connexin.SessionManager.Session.{ConnexinSession}
use connexin.SessionManager.Manager.{World, Manager, Config, find_session, record_activity}
use connexin.SessionManager.Manager.Sessions.{IsUnique}
use connexin.SessionManager.Create.{ConnexinSessionInput, create_session}
use connexin.SessionManager.Start.{
  not_started, start_session, start_found, start_unless, on_data, on_exit,
}
use connexin.SessionManager.Access.{
  SessionDropReason, missing, has_exited, is_closing, admit, authenticate_app, check_app,
  authenticate_ws_capability, authenticate_file_capability, file_holder, get_file_session,
  open_files, deliverable_session, dropped, found_terminal, live_terminal, write_input, write_to,
  resize_session, poll_session, record_output_confirmed,
}
use connexin.SessionManager.Close.{close_session, cleanup_expired_sessions, close_all}
use connexin.SessionManager.History.{
  Operation, create, start, activity, close, open_files as open_op, data_event, exit_event,
  app_auth, ws_auth, file_auth, write, resize, poll, confirm, cleanup, close_everything, perform,
  run_history,
}
use connexin.SessionManager.History.Change.{
  stay, Change-IsUnique, Change-capacity, IsOver, left, closing, Change-IsOver,
}
use connexin.SessionManager.History.Steps.{
  Changes, check_app-Changes, check_ws-Changes, open_files-Changes, touch-Changes,
  poll_found-Changes, confirm_found-Changes, write_to-Changes, resize_to-Changes,
}
use connexin.SessionManager.History.Lifetimes.{
  present_self, file_holder_present, admit_found-Changes, data_found-Changes, exit_found-Changes,
  register-Changes, start_found-Changes,
}
use connexin.SessionManager.History.Cleanup.{
  close_found-Changes, close_each-Changes, cleanup_from-Changes,
}

create-Changes :
    (w : World) (input : ConnexinSessionInput) (m : Manager)
    → Changes w m (create_session w input m).0
unfolding create_session
create-Changes w input m = elim (Bool-cases (leb m.config.max_sessions (length m.sessions))) [
  | inl full ↦ rw (full) (stay refl, refl)
  | inr room ↦ rw (room) (register-Changes w m input _ (leb-false→lt _ _ room))
]

perform-Changes :
    (w : World) (op : Operation) (m : Manager) → IsUnique m.sessions → Changes w m (perform w op m)
unfolding perform start_session record_activity close_session get_file_session on_data on_exit
    authenticate_app authenticate_ws_capability authenticate_file_capability write_input
    resize_session poll_session record_output_confirmed cleanup_expired_sessions close_all
perform-Changes w (create input) m u = create-Changes w input m
perform-Changes w (start id) m u = start_found-Changes w m id _ refl
perform-Changes w (activity id) m u = touch-Changes w m id _ refl
perform-Changes w (close id) m u = close_found-Changes w m id _ refl
perform-Changes w (open_op id) m u = open_files-Changes w m id _ refl
perform-Changes w (data_event id text) m u = data_found-Changes w m id text _ refl
perform-Changes w (exit_event id device code) m u = exit_found-Changes w m id device code _ refl
perform-Changes w (app_auth id token) m u = check_app-Changes w m id token _ refl
perform-Changes w (ws_auth id token) m u = check_ws-Changes w m id token _ refl
perform-Changes w (file_auth token) m u =
    admit_found-Changes w m (file_holder token m.sessions)
      (λ s e. file_holder_present token m.sessions m.sessions s (present_self m.sessions u) e)
perform-Changes w (write id text) m u = write_to-Changes w m id text _ refl
perform-Changes w (resize id cols rows) m u = resize_to-Changes w m id cols rows _ refl
perform-Changes w (poll id after) m u = poll_found-Changes w m id after _ refl
perform-Changes w (confirm id bytes) m u = confirm_found-Changes w m id bytes _ refl
perform-Changes w cleanup m u = cleanup_from-Changes w m.sessions m u (present_self m.sessions u)
perform-Changes w close_everything m u = close_each-Changes w m.sessions m

-- Unique ids, no more sessions than allowed, and the session `id` closing or gone.
record IsSound (m : Manager) : Type 0 where
  unique : IsUnique m.sessions
  within : length m.sessions ≤ m.config.max_sessions

perform-IsSound : (w : World) (op : Operation) (m : Manager) → IsSound m → IsSound (perform w op m)
perform-IsSound w op m v =
    let (c, e) = perform-Changes w op m v.unique in
    record {
      unique = Change-IsUnique c v.unique;
      within =
          subst (λ (k : Config). length (perform w op m).sessions ≤ k.max_sessions) (sym e)
            (Change-capacity c v.within);
    }

run-IsSound :
    (ops : List (World × Operation)) (m : Manager) → IsSound m → IsSound (run_history ops m)
unfolding run_history
run-IsSound [] m v = v
run-IsSound ((w, op) ∷ ops) m v = run-IsSound ops (perform w op m) (perform-IsSound w op m v)

-- From any state with distinct ids and at most `maxSessions` sessions, whatever calls and terminal
-- events come, in any order and whatever fails outside: the ids of the sessions stay distinct and
-- their number stays within `maxSessions`.
pub run_history_capacity :
    (ops : List (World × Operation)) (m : Manager)
    → IsUnique m.sessions
    → length m.sessions ≤ m.config.max_sessions
    → IsUnique (run_history ops m).sessions
      × (length (run_history ops m).sessions ≤ (run_history ops m).config.max_sessions)
run_history_capacity ops m u h =
    let v = run-IsSound ops m (record { unique = u; within = h }) in (v.unique, v.within)

-- No creation of the history draws this id again.
abbrev pub NeverDraws : Text → List (World × Operation) → Type 0
NeverDraws id = All (λ step. text_eq step.0.fresh_id id ≡ false)

run-IsOver :
    (ops : List (World × Operation)) (m : Manager) (id : Text)
    → IsUnique m.sessions
    → NeverDraws id ops
    → IsOver id m.sessions
    → IsOver id (run_history ops m).sessions
unfolding run_history
run-IsOver [] m id u n o = o
run-IsOver ((w, op) ∷ ops) m id u n o =
    let (c, _) = perform-Changes w op m u in
    run-IsOver ops (perform w op m) id (Change-IsUnique c u) n.1 (Change-IsOver c n.0 u o)

over_closing :
    (id : Text) (xs : List ConnexinSession) (s : ConnexinSession)
    → IsOver id xs
    → find_session id xs ≡ some s
    → s.closing ≡ true
over_closing id xs s (left h) f = absurd (differ (sym h ∙ f))
  where
    differ : none ≡ some s → ⊥
    differ e = cc
over_closing id xs s (closing t h c) f =
    sym (ap (λ (x : ConnexinSession). x.closing) (same (sym h ∙ f))) ∙ c
  where
    same : some t ≡ some s → t ≡ s
    same e = cc

module _ (w : World) (m : Manager) where
  refuses_app :
      (token : Text) (o : Option ConnexinSession)
      → ((s : ConnexinSession) → o ≡ some s → s.closing ≡ true)
      → check_app w token m o ≡ (m, none)
  unfolding check_app
  refuses_app token none h = refl
  refuses_app token (some s) h =
      subst
        (λ b. (if b || not (text_eq s.app_token token) then (m, none) else admit w m s) ≡ (m, none))
        (sym (h s refl)) refl

  refuses_start :
      (o : Option ConnexinSession)
      → ((s : ConnexinSession) → o ≡ some s → s.closing ≡ true)
      → start_found w m o ≡ (m, not_started)
  unfolding start_found
  refuses_start none h = refl
  refuses_start (some s) h =
      subst (λ b. (if b then (m, not_started) else start_unless w m s s.pty) ≡ (m, not_started))
        (sym (h s refl)) refl

  refuses_files :
      (o : Option ConnexinSession)
      → ((s : ConnexinSession) → o ≡ some s → s.closing ≡ true)
      → open_files w m o ≡ (m, none)
  unfolding open_files
  refuses_files none h = refl
  refuses_files (some s) h = simp (h s refl)

  refuses_terminal :
      (s : ConnexinSession) (p : Option ℕ)
      → s.closing ≡ true
      → (reason : SessionDropReason) × (live_terminal s p ≡ dropped reason)
  unfolding live_terminal
  refuses_terminal s none h = (missing, refl)
  refuses_terminal s (some pty) h = elim (Bool-cases s.exited) [
    | inl over ↦ (has_exited, simp (over))
    | inr running ↦ (is_closing, simp (running, h))
  ]

  refuses_delivery :
      (o : Option ConnexinSession)
      → ((s : ConnexinSession) → o ≡ some s → s.closing ≡ true)
      → (reason : SessionDropReason) × (found_terminal o ≡ dropped reason)
  unfolding found_terminal
  refuses_delivery none h = (missing, refl)
  refuses_delivery (some s) h = refuses_terminal s s.pty (h s refl)

-- A session that is closing or gone, in a state with distinct ids, stays so through every history
-- that never draws its id again: after it, that id is never authenticated for the app, started,
-- opened for files or written to, and such a call changes nothing.
pub closing_is_permanent :
    (ops : List (World × Operation)) (m : Manager) (id token data_text : Text) (w : World)
    → IsUnique m.sessions
    → NeverDraws id ops
    → IsOver id m.sessions
    → let m' = run_history ops m in
      (authenticate_app w id token m' ≡ (m', none))
      × (start_session w id m' ≡ (m', not_started))
      × (get_file_session w id m' ≡ (m', none))
      × ((reason : SessionDropReason) × (write_input w id data_text m' ≡ (m', some reason)))
unfolding authenticate_app start_session get_file_session write_input deliverable_session write_to
closing_is_permanent ops m id token data_text w u n o =
    let m' = run_history ops m in
    let over = over_closing id m'.sessions in
    let still = run-IsOver ops m id u n o in
    let (reason, dropped_it) =
      refuses_delivery w m' (find_session id m'.sessions) (λ s f. over s still f) in
    (
      refuses_app w m' token (find_session id m'.sessions) (λ s f. over s still f),
      refuses_start w m' (find_session id m'.sessions) (λ s f. over s still f),
      refuses_files w m' (find_session id m'.sessions) (λ s f. over s still f),
      (reason, ap (write_to w data_text m') dropped_it),
    )

-- ===== src/Tests/Sessions.antt =====
-- The theorems on the session manager at concrete inputs.
use connexin.Prelude.{
  ◌≡◌, ◌≤◌, ◌⊎◌, refl, false, List, [], ◌∷◌, none, some, map, arith, length, drop, flatten, codes,
}
use connexin.Utf8.{Text, take_last_utf8_bytes}
use connexin.SessionManager.Session.{
  ConnexinOutputChunk, ConnexinSession, poll_output, receive_output,
}
use connexin.SessionManager.Output.{HasReceived, remember, receive_output-HasReceived}
use connexin.SessionManager.Receipts.{receive_all, remember_all, receive_all-HasReceived}
use connexin.SessionManager.Poll.{Continues, Restarts, poll_output_cases, poll_output_lossless}
use connexin.SessionManager.Manager.{World, find_session}
use connexin.SessionManager.Manager.Sessions.{IsUnique}
use connexin.SessionManager.Create.{new_session, create_session}
use connexin.SessionManager.Create.Capacity.{Creates, create_session-Creates}
use connexin.SessionManager.Start.{not_started, start_session}
use connexin.SessionManager.Access.{
  SessionDropReason, authenticate_app, get_file_session, write_input,
}
use connexin.SessionManager.Access.Guards.{
  AppCheck, Delivery, authenticate_app-AppCheck, write_input-Delivery,
}
use connexin.SessionManager.Close.{cleanup_expired_sessions}
use connexin.SessionManager.History.{
  Operation, create, start, close, data_event, cleanup, run_history,
}
use connexin.SessionManager.History.Cleanup.{is_expired, cleanup_keeps_live}
use connexin.SessionManager.History.Change.{closing}
use connexin.SessionManager.History.Permanence.{run_history_capacity, closing_is_permanent}
use connexin.Tests.{calm, office, nas_summary, nas_input, open_session, shut_session, busy_office}

abbrev some_output : List Text
some_output = codes "abc" ∷ codes "de" ∷ codes "fgh" ∷ []

abbrev written_session : ConnexinSession
written_session = receive_all 8 (new_session calm office nas_summary) some_output

written : HasReceived 8 some_output written_session
written = receive_all-HasReceived calm office nas_summary some_output

receive_all-HasReceived_example :
    HasReceived 8
      (remember_all [] some_output)
      (receive_all 8 (new_session calm office nas_summary) some_output)
receive_all-HasReceived_example = receive_all-HasReceived calm office nas_summary some_output

receive_output-HasReceived_example :
    HasReceived 8
      (remember some_output (codes "xyz"))
      (receive_output 8 written_session (codes "xyz"))
receive_output-HasReceived_example =
    receive_output-HasReceived 8 some_output written_session (codes "xyz") written

poll_output_cases_example :
    let p = poll_output written_session 1 in
    (p.next_seq ≡ 3)
    × (Continues 8 some_output written_session written 1 p
        ⊎ Restarts 8 some_output written_session written 1 p)
poll_output_cases_example = poll_output_cases 8 some_output written_session 1 written

kept_all : (poll_output written_session 1).reset ≡ false
unfolding poll_output receive_all receive_output new_session take_last_utf8_bytes
kept_all = refl

poll_output_lossless_example :
    let p = poll_output written_session 1 in
    (flatten (map (λ (c : ConnexinOutputChunk). c.chunk_data) p.chunks)
      ≡ flatten (drop 1 some_output))
    × (1 ≤ p.next_seq)
    × (p.next_seq ≡ 3)
poll_output_lossless_example = poll_output_lossless 8 some_output written_session 1 written kept_all

busy_IsUnique : IsUnique busy_office.sessions
unfolding find_session
busy_IsUnique = (refl, (refl, tt))

abbrev busy_day : List (World × Operation)
busy_day =
    (calm, start (codes "s2"))
    ∷ (calm, data_event (codes "s1") (codes "hi"))
    ∷ (calm, close (codes "s1"))
    ∷ (calm, create nas_input)
    ∷ (calm, cleanup)
    ∷ []

run_history_capacity_example :
    IsUnique (run_history busy_day busy_office).sessions
    × (length (run_history busy_day busy_office).sessions
        ≤ (run_history busy_day busy_office).config.max_sessions)
run_history_capacity_example = run_history_capacity busy_day busy_office busy_IsUnique (omega arith)

shut_found : find_session (codes "s2") busy_office.sessions ≡ some shut_session
unfolding find_session
shut_found = refl

closing_is_permanent_example :
    let m' = run_history busy_day busy_office in
    (authenticate_app calm (codes "s2") (codes "app") m' ≡ (m', none))
    × (start_session calm (codes "s2") m' ≡ (m', not_started))
    × (get_file_session calm (codes "s2") m' ≡ (m', none))
    × ((reason : SessionDropReason) × (write_input calm (codes "s2") (codes "ls") m'
          ≡ (m', some reason)))
closing_is_permanent_example =
    closing_is_permanent busy_day busy_office (codes "s2") (codes "app") (codes "ls") calm
      busy_IsUnique (refl, (refl, (refl, (refl, (refl, tt)))))
      (closing shut_session shut_found refl)

create_session-Creates_example :
    Creates calm nas_input office
      (create_session calm nas_input office).0
      (create_session calm nas_input office).1
create_session-Creates_example = create_session-Creates calm nas_input office

authenticate_app-AppCheck_example :
    AppCheck calm
      (codes "s1")
      (codes "app")
      busy_office
      (authenticate_app calm (codes "s1") (codes "app") busy_office).0
      (authenticate_app calm (codes "s1") (codes "app") busy_office).1
authenticate_app-AppCheck_example =
    authenticate_app-AppCheck calm (codes "s1") (codes "app") busy_office

write_input-Delivery_example :
    Delivery calm
      (codes "s1")
      (codes "ls")
      busy_office
      (write_input calm (codes "s1") (codes "ls") busy_office).0
      (write_input calm (codes "s1") (codes "ls") busy_office).1
write_input-Delivery_example = write_input-Delivery calm (codes "s1") (codes "ls") busy_office

open_found : find_session (codes "s1") busy_office.sessions ≡ some open_session
unfolding find_session
open_found = refl

still_young : is_expired calm busy_office open_session ≡ false
unfolding new_session
still_young = refl

cleanup_keeps_live_example :
    find_session (codes "s1") (cleanup_expired_sessions calm busy_office).0.sessions
    ≡ some open_session
cleanup_keeps_live_example =
    cleanup_keeps_live calm busy_office open_session busy_IsUnique open_found still_young

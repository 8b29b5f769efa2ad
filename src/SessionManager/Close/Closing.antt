-- ===== src/SessionManager/Close/Closing.antt =====
-- What `closeSession` of src/server/session-manager.ts does to the map of sessions.
use connexin.Prelude.{
  ℕ, ◌≡◌, refl, ap, ◌∙◌, Bool, true, false, List, [], ◌∷◌, Option, none, some, inl, inr,
  if◌then◌else◌, Bool-cases,
}
use connexin.Utf8.{Text}
use connexin.SessionManager.Session.{ConnexinSession}
use connexin.SessionManager.Audit.{LifecycleStep}
use connexin.SessionManager.Manager.{
  World, Manager, find_session, set_session, delete_session, put_session, listener_disposed,
  closed_listener_called, with_effect,
}
use connexin.SessionManager.Close.Calls.{survives, Released}
use connexin.SessionManager.Close.{
  dispose_registered_listeners, kill_pty, notify_closed, release_files, finish_close, after_kill,
  close_session_with_diagnostics,
}

-- Two states with one map of sessions, under one configuration.
pub record SameMap (m m' : Manager) : Type 0 where
  pub sessions : m'.sessions ≡ m.sessions
  pub config : m'.config ≡ m.config

SameMap-trans : {m n k : Manager} → SameMap m n → SameMap n k → SameMap m k
SameMap-trans a b = record { sessions = b.sessions ∙ a.sessions; config = b.config ∙ a.config }

same : (m : Manager) → SameMap m m
same m = record { sessions = refl; config = refl }

pub dispose-SameMap :
    (w : World) (ds : List ℕ) (m : Manager) → SameMap m (dispose_registered_listeners w ds m).0
unfolding dispose_registered_listeners
dispose-SameMap w [] m = same m
dispose-SameMap w (d ∷ ds) m =
    SameMap-trans {m = m} (record { sessions = refl; config = refl })
      (dispose-SameMap w ds (with_effect (listener_disposed d) m))

pub kill-SameMap : (w : World) (p : Option ℕ) (m : Manager) → SameMap m (kill_pty w p m).0
unfolding kill_pty
kill-SameMap w none m = same m
kill-SameMap w (some pty) m = elim (Bool-cases (w.kill_throws pty)) [
  | inl throws ↦ rw (throws) (same m)
  | inr works ↦ rw (works) (record { sessions = refl; config = refl })
]

notify-SameMap :
    (w : World) (id : Text) (ls : List ℕ) (m : Manager) → SameMap m (notify_closed w id ls m).0
unfolding notify_closed
notify-SameMap w id [] m = same m
notify-SameMap w id (l ∷ ls) m =
    SameMap-trans {m = m} (record { sessions = refl; config = refl })
      (notify-SameMap w id ls (with_effect (closed_listener_called l id) m))

release-SameMap : (f : Option ℕ) (m : Manager) → SameMap m (release_files f m)
unfolding release_files
release-SameMap none m = same m
release-SameMap (some f) m = record { sessions = refl; config = refl }

-- The session as it is marked before its terminal is killed.
abbrev pub marked : ConnexinSession → ConnexinSession
marked s = record s { closing = true; disposables = [] }

kill_lem :
    (w : World) (p : Option ℕ) (m : Manager)
    → (kill_pty w p m).1 ≡ (if survives w p then false else true)
unfolding kill_pty
kill_lem w none m = refl
kill_lem w (some pty) m = elim (Bool-cases (w.kill_throws pty)) [
  | inl throws ↦ rw (throws)
  | inr works ↦ rw (works)
]

after_kill_lem :
    (w : World) (s : ConnexinSession) (failures : List LifecycleStep) (r : Manager × Bool)
    → let (m', result) = after_kill w s failures r in
      (result.closed ≡ r.1)
      × (m'.sessions ≡ (if r.1 then delete_session s.id r.0.sessions else r.0.sessions))
      × (m'.config ≡ r.0.config)
unfolding after_kill finish_close
after_kill_lem w s failures (m, false) = (refl, refl, refl)
after_kill_lem w s failures (m, true) =
    let n = notify-SameMap w s.id m.closed_listeners _ in (refl, n.sessions, n.config)

-- Closing marks the session; its terminal gone, it leaves the map, else it stays in it, closing.
pub close_session_with_diagnostics_lem :
    (w : World) (s : ConnexinSession) (m : Manager)
    → let (m', result) = close_session_with_diagnostics w s m in
      let kept = set_session (marked s) m.sessions in
      (result.closed ≡ (if survives w s.pty then false else true))
      × (m'.sessions ≡ (if survives w s.pty then kept else delete_session s.id kept))
      × (m'.config ≡ m.config)
unfolding close_session_with_diagnostics
close_session_with_diagnostics_lem w s m =
    let released = release_files s.file_session (put_session (marked s) m) in
    let (disposed, failures) = dispose_registered_listeners w s.disposables released in
    let r = release-SameMap s.file_session (put_session (marked s) m) in
    let d = dispose-SameMap w s.disposables released in
    let k = kill-SameMap w s.pty disposed in
    let killed = kill_lem w s.pty disposed in
    let (closed, sessions, config) = after_kill_lem w s failures (kill_pty w s.pty disposed) in
    let map = k.sessions ∙ d.sessions ∙ r.sessions in
    (
      closed ∙ killed,
      elim (Bool-cases (survives w s.pty)) [
        | inl stays ↦ rw (stays) (
            sessions
            ∙ ap
                (λ b.
                  if b
                  then delete_session s.id (kill_pty w s.pty disposed).0.sessions
                  else (kill_pty w s.pty disposed).0.sessions)
                (killed ∙ ap (λ b. if b then false else true) stays)
            ∙ map)
        | inr goes ↦ rw (goes) (
            sessions
            ∙ ap
                (λ b.
                  if b
                  then delete_session s.id (kill_pty w s.pty disposed).0.sessions
                  else (kill_pty w s.pty disposed).0.sessions)
                (killed ∙ ap (λ b. if b then false else true) goes)
            ∙ ap (delete_session s.id) map)
      ],
      config ∙ k.config ∙ d.config ∙ r.config,
    )

-- What a call of `closeSession` for `id` can come to.
pub data Closes (w : World) (id : Text) (m m' : Manager) : Bool → Type 0 where
  unknown : find_session id m.sessions ≡ none → m' ≡ m → Closes w id m m' false
  gone :
      (s : ConnexinSession)
      → find_session id m.sessions ≡ some s
      → survives w s.pty ≡ false
      → find_session id m'.sessions ≡ none
      → Released w s m m'
      → Closes w id m m' true
  stuck :
      (s : ConnexinSession)
      → find_session id m.sessions ≡ some s
      → survives w s.pty ≡ true
      → find_session id m'.sessions ≡ some (marked s)
      → Released w s m m'
      → Closes w id m m' false

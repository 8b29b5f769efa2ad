-- ===== src/SessionManager/Access/Guards.antt =====
-- Who passes the guards of src/server/session-manager.ts, and what reaches a terminal.
use connexin.Prelude.{
  ℕ, ◌≡◌, refl, sym, ap, subst, ◌∙◌, true, false, not, ◌||◌, ◌∷◌, Option, none, some, inl, inr,
  if◌then◌else◌, Bool-cases, text_eq, text_eq→eq,
}
use connexin.Utf8.{Text}
use connexin.SessionManager.Session.{ConnexinSession}
use connexin.SessionManager.Manager.{
  World, Manager, pty_write, find_session, set_session, put_session,
}
use connexin.SessionManager.Access.{
  admit, check_app, authenticate_app, SessionDropReason, missing, has_exited, is_closing,
  Deliverable, target, dropped, live_terminal, found_terminal, deliverable_session, write_to,
  write_input,
}

abbrev pub active : World → ConnexinSession → ConnexinSession
active w s = record s { last_activity_at = w.now }

-- The outcomes of `authenticateApp`.
pub data AppCheck (w : World) (id token : Text) (m m' : Manager)
    : Option ConnexinSession → Type 0 where
  unknown : find_session id m.sessions ≡ none → m' ≡ m → AppCheck w id token m m' none
  shutting :
      (s : ConnexinSession)
      → find_session id m.sessions ≡ some s
      → s.closing ≡ true
      → m' ≡ m
      → AppCheck w id token m m' none
  wrong_token :
      (s : ConnexinSession)
      → find_session id m.sessions ≡ some s
      → text_eq s.app_token token ≡ false
      → m' ≡ m
      → AppCheck w id token m m' none
  passed :
      (s : ConnexinSession)
      → find_session id m.sessions ≡ some s
      → s.closing ≡ false
      → s.app_token ≡ token
      → m' ≡ put_session (active w s) m
      → AppCheck w id token m m' (some (active w s))

check_app-holder :
    (w : World) (token : Text) (m : Manager) (s : ConnexinSession)
    → s.closing ≡ false
    → text_eq s.app_token token ≡ true
    → check_app w token m (some s) ≡ admit w m s
unfolding check_app
check_app-holder w token m s live right =
    ap (λ b. if b || not (text_eq s.app_token token) then (m, none) else admit w m s) live
    ∙ ap (λ b. if not b then (m, none) else admit w m s) right

check_app-AppCheck :
    (w : World) (id token : Text) (m : Manager) (o : Option ConnexinSession)
    → find_session id m.sessions ≡ o
    → AppCheck w id token m (check_app w token m o).0 (check_app w token m o).1
unfolding check_app admit
check_app-AppCheck w id token m none f = unknown f refl
check_app-AppCheck w id token m (some s) f = elim (Bool-cases s.closing) [
  | inl shut ↦ simp (shut) (shutting s f shut refl)
  | inr live ↦ elim (Bool-cases (text_eq s.app_token token)) [
    | inr wrong ↦ simp (live, wrong) (wrong_token s f wrong refl)
    | inl right ↦
        subst (λ r. AppCheck w id token m r.0 r.1) (sym (check_app-holder w token m s live right))
          (passed s f live (text_eq→eq s.app_token token right) refl)
  ]
]

-- `authenticateApp` admits exactly the holder of the token of a session that is there and not
-- closing, records its activity, and changes nothing otherwise.
pub authenticate_app-AppCheck :
    (w : World) (id token : Text) (m : Manager)
    → AppCheck w id token m (authenticate_app w id token m).0 (authenticate_app w id token m).1
unfolding authenticate_app
authenticate_app-AppCheck w id token m =
    check_app-AppCheck w id token m (find_session id m.sessions) refl

-- The outcomes of `writeInput`.
pub data Delivery (w : World) (id text : Text) (m m' : Manager)
    : Option SessionDropReason → Type 0 where
  no_session : find_session id m.sessions ≡ none → m' ≡ m → Delivery w id text m m' (some missing)
  no_terminal :
      (s : ConnexinSession)
      → find_session id m.sessions ≡ some s
      → s.pty ≡ none
      → m' ≡ m
      → Delivery w id text m m' (some missing)
  over :
      (s : ConnexinSession) (pty : ℕ)
      → find_session id m.sessions ≡ some s
      → s.pty ≡ some pty
      → s.exited ≡ true
      → m' ≡ m
      → Delivery w id text m m' (some has_exited)
  shutting :
      (s : ConnexinSession) (pty : ℕ)
      → find_session id m.sessions ≡ some s
      → s.pty ≡ some pty
      → s.closing ≡ true
      → m' ≡ m
      → Delivery w id text m m' (some is_closing)
  delivered :
      (s : ConnexinSession) (pty : ℕ)
      → find_session id m.sessions ≡ some s
      → s.pty ≡ some pty
      → s.exited ≡ false
      → s.closing ≡ false
      → m'.effects ≡ pty_write pty text ∷ m.effects
      → m'.sessions ≡ set_session (active w s) m.sessions
      → Delivery w id text m m' none

module _ (w : World) (id text : Text) (m : Manager) where
  Deliver : (d : Deliverable) → Type 0
  Deliver d = Delivery w id text m (write_to w text m d).0 (write_to w text m d).1

  live_terminal-target :
      (s : ConnexinSession) (pty : ℕ)
      → s.exited ≡ false
      → s.closing ≡ false
      → live_terminal s (some pty) ≡ target s pty
  unfolding live_terminal
  live_terminal-target s pty running live =
      ap
        (λ b.
          if b then dropped has_exited else if s.closing then dropped is_closing else target s pty)
        running
      ∙ ap (λ b. if b then dropped is_closing else target s pty) live

  live_terminal-Delivery :
      (s : ConnexinSession) (p : Option ℕ)
      → find_session id m.sessions ≡ some s
      → s.pty ≡ p
      → Deliver (live_terminal s p)
  unfolding Deliver write_to live_terminal
  live_terminal-Delivery s none f e = no_terminal s f e refl
  live_terminal-Delivery s (some pty) f e = elim (Bool-cases s.exited) [
    | inl done ↦ simp (done) (over s pty f e done refl)
    | inr running ↦ elim (Bool-cases s.closing) [
      | inl shut ↦ simp (running, shut) (shutting s pty f e shut refl)
      | inr live ↦
          subst Deliver (sym (live_terminal-target s pty running live))
            (delivered s pty f e running live refl refl)
    ]
  ]

  found_terminal-Delivery :
      (o : Option ConnexinSession) → find_session id m.sessions ≡ o → Deliver (found_terminal o)
  unfolding Deliver write_to found_terminal
  found_terminal-Delivery none f = no_session f refl
  found_terminal-Delivery (some s) f = live_terminal-Delivery s s.pty f refl

-- `writeInput` reaches exactly the terminal of a session that is there, running and not closing,
-- with one write of the whole input; any other call writes nothing, changes nothing, and says why.
pub write_input-Delivery :
    (w : World) (id text : Text) (m : Manager)
    → Delivery w id text m (write_input w id text m).0 (write_input w id text m).1
unfolding write_input deliverable_session Deliver
write_input-Delivery w id text m =
    found_terminal-Delivery w id text m (find_session id m.sessions) refl

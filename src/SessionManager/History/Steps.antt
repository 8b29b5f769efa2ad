-- ===== src/SessionManager/History/Steps.antt =====
-- Each call of src/server/session-manager.ts as a change of the map of sessions.
use connexin.Prelude.{
  ℕ, ◌≡◌, refl, sym, ap, subst, ◌∙◌, ◌⊎◌, true, false, not, ◌||◌, List, Option, none, some, inl,
  inr, arith, Bool-cases, text_eq, text_eq→eq,
}
use connexin.Utf8.{Text}
use connexin.SessionManager.Session.{ConnexinSession}
use connexin.SessionManager.Manager.{World, Manager, find_session, set_session, touch}
use connexin.SessionManager.Manager.Sessions.{find_session-id}
use connexin.SessionManager.Access.{
  admit, check_app, check_ws, open_files, Deliverable, target, dropped, live_terminal,
  found_terminal, deliverable_session, write_to, resize_to, poll_found, confirm_found,
}
use connexin.SessionManager.History.Change.{Change, stay, rewrite}

-- A call under `w` took `m` to `m'`.
abbrev pub Changes : World → Manager → Manager → Type 0
Changes w m m' =
    Change m.config.max_sessions w.fresh_id m.sessions m'.sessions × (m'.config ≡ m.config)

pub self_found :
    (id : Text) (s : ConnexinSession) (xs : List ConnexinSession)
    → find_session id xs ≡ some s
    → find_session s.id xs ≡ some s
self_found id s xs f =
    subst (λ t. find_session t xs ≡ some s) (sym (text_eq→eq s.id id (find_session-id id s xs f))) f

pub kept_closing :
    (s s' : ConnexinSession) → s'.closing ≡ s.closing → (s.closing ≡ false) ⊎ (s'.closing ≡ true)
kept_closing s s' e = elim (Bool-cases s.closing) [ inl c ↦ inr (e ∙ c) | inr c ↦ inl c ]

-- A call that rewrites the session it found, and does not touch its id or its closing mark.
pub touched :
    {most : ℕ} {new : Text} (xs : List ConnexinSession) (s s' : ConnexinSession)
    → find_session s.id xs ≡ some s
    → s'.id ≡ s.id
    → s'.closing ≡ s.closing
    → Change most new xs (set_session s' xs)
touched xs s s' f i c = rewrite s s' f i (kept_closing s s' c) refl

pub admit-Changes :
    (w : World) (m : Manager) (s : ConnexinSession)
    → find_session s.id m.sessions ≡ some s
    → Changes w m (admit w m s).0
unfolding admit
admit-Changes w m s f =
    (touched m.sessions s (record s { last_activity_at = w.now }) f refl refl, refl)

module _ (w : World) (m : Manager) where
  nothing : Changes w m m
  nothing = (stay refl, refl)

  pub check_app-Changes :
      (id token : Text) (o : Option ConnexinSession)
      → find_session id m.sessions ≡ o
      → Changes w m (check_app w token m o).0
  unfolding check_app
  check_app-Changes id token none f = nothing
  check_app-Changes id token (some s) f =
      elim (Bool-cases (s.closing || not (text_eq s.app_token token))) [
        | inl refused ↦ rw (refused) nothing
        | inr passed ↦ rw (passed) (admit-Changes w m s (self_found id s m.sessions f))
      ]

  pub check_ws-Changes :
      (id token : Text) (o : Option ConnexinSession)
      → find_session id m.sessions ≡ o
      → Changes w m (check_ws w token m o).0
  unfolding check_ws
  check_ws-Changes id token none f = nothing
  check_ws-Changes id token (some s) f = elim (Bool-cases (not (text_eq s.ws_token token))) [
    | inl refused ↦ rw (refused) nothing
    | inr passed ↦ rw (passed) (admit-Changes w m s (self_found id s m.sessions f))
  ]

  pub open_files-Changes :
      (id : Text) (o : Option ConnexinSession)
      → find_session id m.sessions ≡ o
      → Changes w m (open_files w m o).0
  unfolding open_files
  open_files-Changes id none f = nothing
  open_files-Changes id (some s) f = elim (Bool-cases s.closing) [
    | inl refused ↦ rw (refused) nothing
    | inr passed ↦
        rw (passed) (rewrite s _ (self_found id s m.sessions f) refl (inl passed) refl, refl)
  ]

  pub touch-Changes :
      (id : Text) (o : Option ConnexinSession)
      → find_session id m.sessions ≡ o
      → Changes w m (touch w m o).0
  unfolding touch
  touch-Changes id none f = nothing
  touch-Changes id (some s) f = (
    touched m.sessions s (record s { last_activity_at = w.now }) (self_found id s m.sessions f) refl
        refl,
    refl,
  )

  pub poll_found-Changes :
      (id : Text) (after : ℕ) (o : Option ConnexinSession)
      → find_session id m.sessions ≡ o
      → Changes w m (poll_found w m after o).0
  unfolding poll_found
  poll_found-Changes id after none f = nothing
  poll_found-Changes id after (some s) f = (
    touched m.sessions s (record s { last_activity_at = w.now }) (self_found id s m.sessions f) refl
        refl,
    refl,
  )

  pub confirm_found-Changes :
      (id : Text) (bytes : ℕ) (o : Option ConnexinSession)
      → find_session id m.sessions ≡ o
      → Changes w m (confirm_found w bytes m o).0
  unfolding confirm_found
  confirm_found-Changes id bytes none f = nothing
  confirm_found-Changes id bytes (some s) f = (
    touched m.sessions s (record s { last_activity_at = w.now }) (self_found id s m.sessions f) refl
        refl,
    refl,
  )

  -- A target is a session of the map.
  pub deliverable_found :
      (id : Text) (s : ConnexinSession) (pty : ℕ)
      → deliverable_session id m ≡ target s pty
      → find_session id m.sessions ≡ some s
  unfolding deliverable_session
  deliverable_found id s pty e = from_found (find_session id m.sessions) e
    where
      from_terminal :
          (t : ConnexinSession) (p : Option ℕ) → live_terminal t p ≡ target s pty → t ≡ s
      from_terminal t none h = cc
      from_terminal t (some q) h = ground arith

      from_found : (o : Option ConnexinSession) → found_terminal o ≡ target s pty → o ≡ some s
      from_found none h = cc
      from_found (some t) h = ap some (from_terminal t t.pty h)

  pub write_to-Changes :
      (id text : Text) (d : Deliverable)
      → deliverable_session id m ≡ d
      → Changes w m (write_to w text m d).0
  unfolding write_to
  write_to-Changes id text (dropped reason) e = nothing
  write_to-Changes id text (target s pty) e = (
    touched m.sessions s (record s { last_activity_at = w.now })
        (self_found id s m.sessions (deliverable_found id s pty e)) refl refl,
    refl,
  )

  pub resize_to-Changes :
      (id : Text) (cols rows : ℕ) (d : Deliverable)
      → deliverable_session id m ≡ d
      → Changes w m (resize_to w cols rows m d).0
  unfolding resize_to
  resize_to-Changes id cols rows (dropped reason) e = nothing
  resize_to-Changes id cols rows (target s pty) e = (
    touched m.sessions s (record s { last_activity_at = w.now })
        (self_found id s m.sessions (deliverable_found id s pty e)) refl refl,
    refl,
  )

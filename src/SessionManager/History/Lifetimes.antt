-- ===== src/SessionManager/History/Lifetimes.antt =====
-- The calls of src/server/session-manager.ts that begin and end sessions, as changes of the map.
use connexin.Prelude.{
  ℕ, ◌<◌, ◌≡◌, refl, sym, ap, subst, ◌∙◌, true, false, not, ◌&&◌, List, [], ◌∷◌, ◌++◌, Option, none,
  some, inl, inr, if◌then◌else◌, Bool-cases, length, All, text_eq, text_eq_refl, text_eq_sym,
}
use connexin.Utf8.{Text}
use connexin.Device.{DeviceResult, valid_device, device_error}
use connexin.SessionManager.Session.{ConnexinSession, receive_output, append_output_chunk}
use connexin.SessionManager.Manager.{World, Manager, find_session, set_session}
use connexin.SessionManager.Manager.Sessions.{IsUnique, find-set, find-delete_ne}
use connexin.SessionManager.Create.{
  ConnexinSessionInput, register_session, new_session, public_summary_of,
}
use connexin.SessionManager.Access.{file_holder, admit_found}
use connexin.SessionManager.Close.{
  dispose_registered_listeners, kill_pty, close_session_with_diagnostics,
}
use connexin.SessionManager.Close.Calls.{survives}
use connexin.SessionManager.Close.Closing.{
  dispose-SameMap, kill-SameMap, marked, close_session_with_diagnostics_lem,
}
use connexin.SessionManager.Start.{
  not_started, undo_start, register_exit, register_data, spawn_terminal, start_unless, start_found,
  data_found, on_data, exit_found, on_exit,
}
use connexin.SessionManager.History.Change.{stay, rewrite, remove, add, chain}
use connexin.SessionManager.History.Steps.{Changes, self_found, touched, admit-Changes}

-- Each session of `xs` is the one that `cur` has under its id.
abbrev pub ArePresent : List ConnexinSession → List ConnexinSession → Type 0
ArePresent cur = All (λ x. find_session x.id cur ≡ some x)

abbrev pub AreApart : Text → List ConnexinSession → Type 0
AreApart id = All (λ x. text_eq id x.id ≡ false)

pub apart_of_none :
    (id : Text) (xs : List ConnexinSession) → find_session id xs ≡ none → AreApart id xs
unfolding find_session
apart_of_none id [] h = tt
apart_of_none id (x ∷ xs) h = elim (Bool-cases (text_eq x.id id)) [
  | inl same ↦ absurd (is_some (rw (same) at h))
  | inr other ↦ (text_eq_sym id x.id ∙ other, apart_of_none id xs (rw (other) at h))
]
  where
    is_some : some x ≡ none → ⊥
    is_some e = cc

present_behind :
    (x : ConnexinSession) (cur xs : List ConnexinSession)
    → AreApart x.id xs
    → ArePresent cur xs
    → ArePresent (x ∷ cur) xs
unfolding find_session
present_behind x cur [] a p = tt
present_behind x cur (y ∷ ys) a p = (rw (a.0) p.0, present_behind x cur ys a.1 p.1)

pub present_self : (xs : List ConnexinSession) → IsUnique xs → ArePresent xs xs
present_self [] u = tt
present_self (x ∷ xs) u = (
  unfold find_session in rw (text_eq_refl x.id),
  present_behind x xs xs (apart_of_none x.id xs u.0) (present_self xs u.1),
)

pub file_holder_present :
    (token : Text) (cur xs : List ConnexinSession) (s : ConnexinSession)
    → ArePresent cur xs
    → file_holder token xs ≡ some s
    → find_session s.id cur ≡ some s
unfolding file_holder
file_holder_present token cur [] s p h = cc
file_holder_present token cur (x ∷ xs) s p h =
    elim (Bool-cases (text_eq token x.file_token && not x.closing)) [
      | inl hit ↦
          subst (λ (y : ConnexinSession). find_session y.id cur ≡ some y) (just (rw (hit) at h)) p.0
      | inr miss ↦ file_holder_present token cur xs s p.1 (rw (miss) at h)
    ]
  where
    just : some x ≡ some s → x ≡ s
    just e = cc

receive_output_keeps :
    (limit : ℕ) (s : ConnexinSession) (text : Text)
    → ((receive_output limit s text).id ≡ s.id)
      × ((receive_output limit s text).closing ≡ s.closing)
unfolding receive_output append_output_chunk
receive_output_keeps limit s [] = (refl, refl)
receive_output_keeps limit s (unit ∷ rest) = (refl, refl)

module _ (w : World) (m : Manager) where
  nothing : Changes w m m
  nothing = (stay refl, refl)

  pub admit_found-Changes :
      (o : Option ConnexinSession)
      → ((s : ConnexinSession) → o ≡ some s → find_session s.id m.sessions ≡ some s)
      → Changes w m (admit_found w m o).0
  unfolding admit_found
  admit_found-Changes none f = nothing
  admit_found-Changes (some s) f = admit-Changes w m s (f s refl)

  pub data_found-Changes :
      (id text : Text) (o : Option ConnexinSession)
      → find_session id m.sessions ≡ o
      → Changes w m (data_found w text m o)
  unfolding data_found
  data_found-Changes id text none f = nothing
  data_found-Changes id text (some s) f =
      let (same_id, same_closing) =
        receive_output_keeps m.config.max_scrollback_bytes (record s { last_activity_at = w.now })
          text in
      (touched m.sessions s _ (self_found id s m.sessions f) same_id same_closing, refl)

  pub exit_found-Changes :
      (id device : Text) (code : Option ℕ) (o : Option ConnexinSession)
      → find_session id m.sessions ≡ o
      → Changes w m (exit_found w id device code m o)
  unfolding exit_found
  exit_found-Changes id device code none f = (stay refl, refl)
  exit_found-Changes id device code (some s) f = (
    touched m.sessions s (record s { exited = true; exit_code = code; last_activity_at = w.now })
        (self_found id s m.sessions f) refl refl,
    refl,
  )

  pub register-Changes :
      (input : ConnexinSessionInput) (d : DeviceResult)
      → length m.sessions < m.config.max_sessions
      → Changes w m (register_session w input m d).0
  unfolding register_session new_session
  register-Changes input (device_error e) h = nothing
  register-Changes input (valid_device device) h =
      (add (new_session w m (public_summary_of w m input device)) refl h refl, refl)

  undo_start-Changes :
      (s : ConnexinSession) (pty : ℕ) (registered : List ℕ)
      → find_session s.id m.sessions ≡ some s
      → s.closing ≡ false
      → Changes w m (undo_start w s pty registered m).0
  unfolding undo_start
  undo_start-Changes s pty registered f c =
      let ds = s.disposables ++ registered in
      let disposed = (dispose_registered_listeners w ds m).0 in
      let d = dispose-SameMap w ds m in
      let k = kill-SameMap w (some pty) disposed in
      let terminated = (kill_pty w (some pty) disposed).1 in
      (
        rewrite s
            (record s {
              pty = if terminated then none else some pty;
              closing = not terminated;
              disposables = [];
            })
            f refl (inl c) (ap (set_session _) (k.sessions ∙ d.sessions)),
        k.config ∙ d.config,
      )

  register_exit-Changes :
      (s : ConnexinSession) (pty on_data : ℕ) (o : Option ℕ)
      → find_session s.id m.sessions ≡ some s
      → s.closing ≡ false
      → Changes w m (register_exit w s pty on_data m o).0
  unfolding register_exit
  register_exit-Changes s pty on_data none f c = undo_start-Changes s pty (on_data ∷ []) f c
  register_exit-Changes s pty on_data (some on_exit) f c = (
    touched m.sessions s
        (record s {
          pty = some pty;
          disposables = s.disposables ++ on_data ∷ on_exit ∷ [];
          last_activity_at = w.now;
        })
        f refl refl,
    refl,
  )

  spawn-Changes :
      (s : ConnexinSession) (spawned on_data : Option ℕ)
      → find_session s.id m.sessions ≡ some s
      → s.closing ≡ false
      → Changes w m (spawn_terminal w s m spawned).0
  unfolding spawn_terminal register_data
  spawn-Changes s none on_data f c = (stay refl, refl)
  spawn-Changes s (some pty) on_data f c = registered w.on_data_handle
    where
      registered : (o : Option ℕ) → Changes w m (register_data w s pty m o).0
      registered none = undo_start-Changes s pty [] f c
      registered (some d) = register_exit-Changes s pty d w.on_exit_handle f c

  pub start_found-Changes :
      (id : Text) (o : Option ConnexinSession)
      → find_session id m.sessions ≡ o
      → Changes w m (start_found w m o).0
  unfolding start_found start_unless
  start_found-Changes id none f = nothing
  start_found-Changes id (some s) f = elim (Bool-cases s.closing) [
    | inl refused ↦ rw (refused) nothing
    | inr passed ↦
        subst (λ b. Changes w m (if b then (m, not_started) else start_unless w m s s.pty).0)
          (sym passed) (unless s.pty passed)
  ]
    where
      unless : (p : Option ℕ) → s.closing ≡ false → Changes w m (start_unless w m s p).0
      unless (some pty) passed = nothing
      unless none passed =
          spawn-Changes s w.spawned w.on_data_handle (self_found id s m.sessions f) passed

  pub closing-Changes :
      (s : ConnexinSession)
      → find_session s.id m.sessions ≡ some s
      → Changes w m (close_session_with_diagnostics w s m).0
  closing-Changes s f =
      let (_, sessions, config) = close_session_with_diagnostics_lem w s m in
      let mark = rewrite s (marked s) f refl (inr refl) refl in
      elim (Bool-cases (survives w s.pty)) [
        | inl stays ↦ (rewrite s (marked s) f refl (inr refl) (rw (stays) at sessions), config)
        | inr goes ↦ (chain mark (remove s.id (rw (goes) at sessions)), config)
      ]

  -- Closing one session leaves what the map has under every other id.
  pub closing_others :
      (s : ConnexinSession) (j : Text)
      → text_eq s.id j ≡ false
      → find_session j (close_session_with_diagnostics w s m).0.sessions ≡ find_session j m.sessions
  closing_others s j apart =
      let (_, sessions, _) = close_session_with_diagnostics_lem w s m in
      let set_apart = find-set j (marked s) m.sessions ∙ rw (apart) in
      elim (Bool-cases (survives w s.pty)) [
        | inl stays ↦ ap (find_session j) (rw (stays) at sessions) ∙ set_apart
        | inr goes ↦
            ap (find_session j) (rw (goes) at sessions)
            ∙ find-delete_ne s.id j (set_session (marked s) m.sessions) apart
            ∙ set_apart
      ]

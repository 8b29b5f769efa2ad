-- ===== src/SessionManager/Create/Capacity.antt =====
-- The outcomes of `createSession` of src/server/session-manager.ts.
use connexin.Prelude.{
  ◌≤◌, ◌<◌, ◌≡◌, refl, sym, ◌∙◌, false, none, some, inl, inr, leb, Bool-cases, length, leb→le,
  leb-false→lt, text_eq_refl,
}
use connexin.Device.{DeviceError, DeviceResult, valid_device, device_error, validate_device}
use connexin.Device.Checks.{IsSafeDevice, validate_device_iff}
use connexin.SessionManager.Session.{ConnexinSession}
use connexin.SessionManager.Manager.{World, Manager, find_session}
use connexin.SessionManager.Manager.Sessions.{find-set}
use connexin.SessionManager.Create.{
  ConnexinSessionInput, CreateResult, created, create_failed, maximum_sessions_reached,
  invalid_device, new_session, public_summary_of, register_session, create_session,
}

-- The state after the call, and its result.
pub data Creates (w : World) (input : ConnexinSessionInput) (m m' : Manager)
    : CreateResult → Type 0 where
  full :
      m.config.max_sessions ≤ length m.sessions
      → m' ≡ m
      → Creates w input m m' (create_failed maximum_sessions_reached)
  rejected :
      (e : DeviceError)
      → length m.sessions < m.config.max_sessions
      → validate_device input.device m.allowed_hosts m.config.max_device_length ≡ device_error e
      → m' ≡ m
      → Creates w input m m' (create_failed (invalid_device e))
  made :
      (s : ConnexinSession)
      → length m.sessions < m.config.max_sessions
      → IsSafeDevice m.allowed_hosts m.config.max_device_length input.device
      → s.public_summary.device ≡ input.device
      → s.id ≡ w.fresh_id
      → s.pty ≡ none
      → s.closing ≡ false
      → find_session w.fresh_id m'.sessions ≡ some s
      → Creates w input m m' (created s)

register_session-Creates :
    (w : World) (input : ConnexinSessionInput) (m : Manager) (d : DeviceResult)
    → length m.sessions < m.config.max_sessions
    → validate_device input.device m.allowed_hosts m.config.max_device_length ≡ d
    → Creates w input m (register_session w input m d).0 (register_session w input m d).1
unfolding register_session new_session public_summary_of
register_session-Creates w input m (device_error e) room h = rejected e room h refl
register_session-Creates w input m (valid_device device) room h =
    let (same, safe) = (validate_device_iff input.device m.allowed_hosts _ device).0 h in
    let s = new_session w m (public_summary_of w m input device) in
    made s room safe (sym same) refl refl refl
      (find-set w.fresh_id s m.sessions ∙ rw (text_eq_refl w.fresh_id))

-- `createSession` changes nothing when the manager is full or the device is refused; else it adds
-- a session for that device, which is safe as an argument of `ssh` and listed in its
-- configuration, under the drawn id, with no terminal yet.
pub create_session-Creates :
    (w : World) (input : ConnexinSessionInput) (m : Manager)
    → Creates w input m (create_session w input m).0 (create_session w input m).1
unfolding create_session
create_session-Creates w input m =
    elim (Bool-cases (leb m.config.max_sessions (length m.sessions))) [
      | inl is_full ↦ rw (is_full) (full (leb→le _ _ is_full) refl)
      | inr room ↦ rw (room) (register_session-Creates w input m _ (leb-false→lt _ _ room) refl)
    ]

-- ===== src/SessionManager/Create.antt =====
-- `createSession` of src/server/session-manager.ts.
pub mod Capacity
use connexin.Prelude.{
  ℕ, Bool, false, List, [], ◌∷◌, Option, none, some, leb, if◌then◌else◌, length, take, codes,
  text_eq, trim_text,
}
use connexin.Utf8.{Text}
use connexin.AuditLog.{Value, undefined, text, end, field, session_opened}
use connexin.Device.{
  DeviceError, DeviceResult, valid_device, device_error, validate_device,
  sanitize_suggested_command,
}
use connexin.BoundedTextBuffer.{new_buffer}
use connexin.SessionManager.Session.{ConnexinSession, ConnexinPublicSession, DeviceDanger}
use connexin.SessionManager.Manager.{
  World, Manager, DeviceMetadata, put_session, audited, session_fields,
}

unfoldable pub lookup_metadata : Text → List (Text × DeviceMetadata) → Option DeviceMetadata
lookup_metadata alias [] = none
lookup_metadata alias ((name, metadata) ∷ rest) =
    if text_eq name alias then some metadata else lookup_metadata alias rest

-- An empty string is falsy.
abbrev non_empty : Text → Option Text
non_empty [] = none
non_empty (unit ∷ rest) = some (unit ∷ rest)

abbrev non_empty_option : Option Text → Option Text
non_empty_option none = none
non_empty_option (some t) = non_empty t

pub data CreateError : Type 0 where
  maximum_sessions_reached : CreateError
  invalid_device : DeviceError → CreateError

pub data CreateResult : Type 0 where
  created : ConnexinSession → CreateResult
  create_failed : CreateError → CreateResult

pub record ConnexinSessionInput : Type 0 where
  pub device : Text
  pub reason : Option Text
  pub suggested : Option Text

abbrev clean_reason : ℕ → Option Text → Option Text
clean_reason most none = none
clean_reason most (some reason) = non_empty (trim_text (take most reason))

abbrev metadata_text : (DeviceMetadata → Option Text) → Option DeviceMetadata → Option Text
metadata_text get none = none
metadata_text get (some metadata) = non_empty_option (get metadata)

abbrev metadata_danger : Option DeviceMetadata → Option DeviceDanger
metadata_danger none = none
metadata_danger (some metadata) = metadata.danger

abbrev text_or_undefined : Option Text → Value
text_or_undefined none = undefined
text_or_undefined (some t) = text t

abbrev present_or_undefined : Option Text → Value
present_or_undefined none = undefined
present_or_undefined (some t) = text (codes "present")

unfoldable pub public_summary_of :
    World → Manager → ConnexinSessionInput → Text → ConnexinPublicSession
unfolding lookup_metadata
public_summary_of w m input device =
    let metadata = lookup_metadata device m.device_metadata in
    record {
      session_id = w.fresh_id;
      device = device;
      reason = clean_reason m.config.max_reason_length input.reason;
      suggested_command =
          sanitize_suggested_command input.suggested m.config.max_suggested_command_length;
      device_label = metadata_text (λ d. d.label) metadata;
      device_group = metadata_text (λ d. d.group) metadata;
      device_danger = metadata_danger metadata;
      device_default_shell = metadata_text (λ d. d.default_shell) metadata;
    }

unfoldable pub new_session : World → Manager → ConnexinPublicSession → ConnexinSession
new_session w m summary = record {
  id = w.fresh_id;
  app_token = w.fresh_app_token;
  ws_token = w.fresh_ws_token;
  file_token = w.fresh_file_token;
  file_session = none;
  pty = none;
  public_summary = summary;
  created_at = w.now;
  last_activity_at = w.now;
  exited = false;
  exit_code = none;
  scrollback = new_buffer m.config.max_scrollback_bytes;
  output_chunks = [];
  output_chunk_bytes = 0;
  next_output_seq = 1;
  disposables = [];
  closing = false;
}

unfoldable pub register_session :
    World → ConnexinSessionInput → Manager → DeviceResult → Manager × CreateResult
unfolding new_session public_summary_of
register_session w input m (device_error e) = (m, create_failed (invalid_device e))
register_session w input m (valid_device device) =
    let summary = public_summary_of w m input device in
    let session = new_session w m summary in
    let fields = session_fields session (
      field (codes "reason") (present_or_undefined summary.reason)
        (field (codes "suggestedCommand") (text_or_undefined summary.suggested_command) end)) in
    (audited w session_opened fields (put_session session m), created session)

unfoldable pub create_session : World → ConnexinSessionInput → Manager → Manager × CreateResult
unfolding register_session
create_session w input m =
    if leb m.config.max_sessions (length m.sessions)
    then (m, create_failed maximum_sessions_reached)
    else register_session w input m
        (validate_device input.device m.allowed_hosts m.config.max_device_length)

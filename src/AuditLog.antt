-- ===== src/AuditLog.antt =====
-- src/server/audit-log.ts: the audit events, the redaction of their fields, and the rate limiter that
-- bounds detailed records. Values are those of JSON with `undefined`; a `class_instance` is an object
-- with a prototype of its own, which the redaction passes through with whatever entries it has.
pub mod Redaction
pub mod RateLimit
use connexin.Prelude.{
  ℕ, ◌+◌, ◌-◌, Bool, true, false, not, ◌&&◌, ◌||◌, List, [], ◌∷◌, ◌++◌, map, Option, none, some,
  ltb, leb, ◌==◌, if◌then◌else◌, any, codes, has_text, includes, ascii_lower, text_eq,
}
use connexin.Utf8.{Text}

pub data AuditEvent : Type 0 where
  runtime_started runtime_closed bridge_listening bridge_bind_retry : AuditEvent
  bridge_connection_rejected bridge_connected bridge_disconnected : AuditEvent
  bridge_message_rejected bridge_backpressure_closed bridge_io_failed : AuditEvent
  session_opened session_open_failed session_open_refused app_host_check_skipped : AuditEvent
  session_started session_exited session_closed session_expired app_resource_read : AuditEvent
  app_session_requested app_session_attached app_session_rejected : AuditEvent
  app_session_close_requested output_confirmed ssh_start_failed : AuditEvent
  file_operation_prepared file_operation_completed file_operation_failed : AuditEvent
  file_request_rejected file_transfer_completed file_transfer_failed : AuditEvent
  audit_sink_recovered : AuditEvent

mutual
  pub data Value : Type 0 where
    undefined null : Value
    boolean : Bool → Value
    number : ℕ → Value
    text : Text → Value
    array : Items → Value
    object : Fields → Value
    class_instance : Fields → Value

  pub data Items : Type 0 where
    nil : Items
    cons : Value → Items → Items

  -- The entries of an object, in their order.
  pub data Fields : Type 0 where
    end : Fields
    field : Text → Value → Fields → Fields

abbrev redacted_words : List Text
redacted_words =
    codes "token"
    ∷ codes "output"
    ∷ codes "suggestedcommand"
    ∷ codes "suggested_command"
    ∷ codes "path"
    ∷ codes "filename"
    ∷ codes "url"
    ∷ codes "authorization"
    ∷ codes "headers"
    ∷ codes "nonce"
    ∷ codes "lease"
    ∷ codes "capability"
    ∷ codes "secret"
    ∷ codes "contents"
    ∷ []

abbrev safe_field_allowlist : List Text
safe_field_allowlist =
    codes "hasAppToken"
    ∷ codes "sshConfigPath"
    ∷ codes "connexinConfigPath"
    ∷ codes "baseUrl"
    ∷ codes "listenUrl"
    ∷ []

unfoldable pub is_redacted_key : Text → Bool
is_redacted_key key =
    if has_text key safe_field_allowlist
    then false
    else any (includes (map ascii_lower key)) redacted_words

-- Assigning to `__proto__` makes no entry: it sets the prototype of the copy, or does nothing.
abbrev pub is_left_out : Text → Bool
is_left_out key = is_redacted_key key || text_eq key (codes "__proto__")

-- `redact` and the object case of `redactValue` are one loop over the entries.
unfoldable mutual
  pub redact : Fields → Fields
  redact end = end
  redact (field key value rest) =
      if is_left_out key then redact rest else field key (redact_value value) (redact rest)

  pub redact_value : Value → Value
  redact_value (array items) = array (redact_items items)
  redact_value (object fields) = object (redact fields)
  redact_value undefined = undefined
  redact_value null = null
  redact_value (boolean b) = boolean b
  redact_value (number n) = number n
  redact_value (text t) = text t
  redact_value (class_instance fields) = class_instance fields

  pub redact_items : Items → Items
  redact_items nil = nil
  redact_items (cons value rest) = cons (redact_value value) (redact_items rest)

-- What the limiter writes: the caller's record, and its two kinds of marker.
pub data Written : Type 0 where
  detailed_record suppression_started : Written
  suppression_summary : ℕ → Written

-- The variables of `createAuditRateLimiter`; an armed timer is its deadline.
pub record RateLimiter : Type 0 where
  pub max_events : ℕ
  pub window_ms : ℕ
  pub window_started_at : ℕ
  pub event_count : ℕ
  pub suppressed_count : ℕ
  pub summary_timer : Option ℕ

pub create_audit_rate_limiter : (max_events window_ms now : ℕ) → RateLimiter
create_audit_rate_limiter max_events window_ms now = record {
  max_events = max_events;
  window_ms = window_ms;
  window_started_at = now;
  event_count = 0;
  suppressed_count = 0;
  summary_timer = none;
}

-- `flushSummary`, which the timer calls too.
unfoldable pub flush_summary : RateLimiter → RateLimiter × List Written
flush_summary l = (
  record l { summary_timer = none },
  if ltb 0 l.suppressed_count then suppression_summary l.suppressed_count ∷ [] else [],
)

-- `record` within the current window.
count_record : ℕ → RateLimiter → RateLimiter × List Written
count_record now l =
    if ltb l.event_count l.max_events
    then (record l { event_count = l.event_count + 1 }, detailed_record ∷ [])
    else if (l.suppressed_count + 1) == 1
    then (
      record l {
        suppressed_count = l.suppressed_count + 1;
        summary_timer = some (now + ((l.window_started_at + l.window_ms) - now));
      },
      suppression_started ∷ [],
    )
    else (record l { suppressed_count = l.suppressed_count + 1 }, [])

unfoldable pub limiter_record : ℕ → RateLimiter → RateLimiter × List Written
unfolding flush_summary count_record
limiter_record now l =
    if leb (l.window_started_at + l.window_ms) now
    then (let (flushed, written) = flush_summary l in
        let (counted, more) =
          count_record now
            (record flushed { window_started_at = now; event_count = 0; suppressed_count = 0 }) in
        (counted, written ++ more))
    else count_record now l

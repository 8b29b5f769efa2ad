-- ===== src/Tests/Records.antt =====
-- The theorems on audit records at concrete inputs.
use connexin.Prelude.{
  ◌≡◌, refl, ◌+◌, ◌-◌, List, [], ◌∷◌, some, none, arith, length, min, codes, reverse,
}
use connexin.AuditLog.{
  AuditEvent, session_opened, session_started, session_closed, Fields, end, field, text, number,
  RateLimiter, Written, flush_summary, limiter_record, suppression_summary,
}
use connexin.AuditLog.RateLimit.{
  limiter_run, count_detailed, count_started, limiter_run_window, summary_repeated,
}
use connexin.SessionManager.Audit.{new_audit_state, audit_health}
use connexin.SessionManager.Audit.Conservation.{
  record_all, accounted, events_of, IsPart, IsTruthful, audit_conservation,
}
use connexin.Tests.{flaky_sink}

abbrev three_events : List (AuditEvent × Fields)
three_events = (session_opened, end) ∷ (session_started, end) ∷ (session_closed, end) ∷ []

audit_conservation_example :
    let st = record_all flaky_sink three_events new_audit_state in
    (accounted st.written + (audit_health st).dropped_records ≡ length three_events)
    × IsPart (events_of st.written) (reverse three_events)
    × IsTruthful (audit_health st)
audit_conservation_example = audit_conservation flaky_sink three_events

abbrev mixed_fields : Fields
mixed_fields = field (codes "appToken") (text (codes "x")) (field (codes "cols") (number 80) end)

abbrev two_at_most : RateLimiter
two_at_most = record {
  max_events = 2;
  window_ms = 100;
  window_started_at = 0;
  event_count = 0;
  suppressed_count = 0;
  summary_timer = none;
}

limiter_run_window_example :
    let (m, written) = limiter_run (1 ∷ 2 ∷ 3 ∷ 4 ∷ []) two_at_most in
    (count_detailed written ≡ min 4 2)
    × (m.suppressed_count ≡ 4 - 2)
    × (count_started written ≡ min 1 (4 - 2))
limiter_run_window_example =
    limiter_run_window (1 ∷ 2 ∷ 3 ∷ 4 ∷ []) two_at_most (omega arith) refl
      (omega arith, (omega arith, (omega arith, (omega arith, tt))))

abbrev with_suppressed : RateLimiter
with_suppressed = record two_at_most {
  event_count = 2;
  suppressed_count = 3;
  summary_timer = some 100;
}

summary_repeated_example :
    let (fired, at_close) = flush_summary with_suppressed in
    (at_close ≡ suppression_summary 3 ∷ [])
    × ((more : List Written) × ((limiter_record 120 fired).1 ≡ suppression_summary 3 ∷ more))
summary_repeated_example = summary_repeated with_suppressed 120 (omega arith) (omega arith)

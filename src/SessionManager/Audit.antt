-- ===== src/SessionManager/Audit.antt =====
-- The audit records of src/server/session-manager.ts (`recordAuditEventSafe`,
-- `noteAuditWriteSucceeded`, `auditHealth`). The sink is outside: `sink n` is what its n-th call
-- throws, if it throws.
pub mod Conservation
use connexin.Prelude.{ℕ, suc, ◌+◌, Bool, List, [], ◌∷◌, Option, none, some, ◌==◌, if◌then◌else◌}
use connexin.AuditLog.{AuditEvent, Fields}

-- A record that reached the sink; `recovered n` is `audit_sink_recovered` with its
-- `droppedRecords`.
pub data SinkRecord : Type 0 where
  recorded : AuditEvent → Fields → SinkRecord
  recovered : ℕ → SinkRecord

abbrev pub Sink : Type 0
Sink = ℕ → Option ℕ

-- The manager's two fields, and what the sink holds, newest first, after how many calls.
pub record AuditState : Type 0 where
  pub dropped_audit_records : ℕ
  pub last_audit_error : Option ℕ
  pub written : List SinkRecord
  pub calls : ℕ

pub data LifecycleStep : Type 0 where
  dispose_listener pty_kill close_listener : LifecycleStep
  audit_step : AuditEvent → LifecycleStep

pub new_audit_state : AuditState
new_audit_state = record {
  dropped_audit_records = 0;
  last_audit_error = none;
  written = [];
  calls = 0;
}

-- `this.audit.record(...)`, with what it throws.
sink_tried : SinkRecord → AuditState → Option ℕ → AuditState
sink_tried entry st none = record st { written = entry ∷ st.written; calls = suc st.calls }
sink_tried entry st (some error) = record st { calls = suc st.calls }

settle : AuditState → ℕ → Option ℕ → AuditState
settle st dropped none = st
settle st dropped (some error) = record st {
  dropped_audit_records = dropped;
  last_audit_error = some error;
}

unfoldable pub note_audit_write_succeeded : Sink → AuditState → AuditState
unfolding sink_tried settle
note_audit_write_succeeded sink st =
    if st.dropped_audit_records == 0
    then st
    else (let cleared = record st { dropped_audit_records = 0; last_audit_error = none } in
        settle (sink_tried (recovered st.dropped_audit_records) cleared (sink st.calls))
          st.dropped_audit_records (sink st.calls))

after_record : Sink → AuditEvent → AuditState → Option ℕ → AuditState × List LifecycleStep
after_record sink event st none = (note_audit_write_succeeded sink st, [])
after_record sink event st (some error) = (
  record st { dropped_audit_records = st.dropped_audit_records + 1; last_audit_error = some error },
  audit_step event ∷ [],
)

unfoldable pub record_audit_event_safe :
    Sink → AuditEvent → Fields → AuditState → AuditState × List LifecycleStep
unfolding sink_tried after_record
record_audit_event_safe sink event fields st =
    after_record sink event (sink_tried (recorded event fields) st (sink st.calls)) (sink st.calls)

pub record AuditHealth : Type 0 where
  pub healthy : Bool
  pub dropped_records : ℕ
  pub error : Option ℕ

unfoldable pub audit_health : AuditState → AuditHealth
audit_health st = record {
  healthy = st.dropped_audit_records == 0;
  dropped_records = st.dropped_audit_records;
  error = st.last_audit_error;
}

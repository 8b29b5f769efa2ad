-- ===== src/SessionManager/Audit/Conservation.antt =====
-- The accounting of the audit records of src/server/session-manager.ts.
use connexin.Prelude.{
  ℕ, suc, ◌+◌, ◌≡◌, ◌⊎◌, ◌-◌, refl, sym, subst, reverse, ◌∙◌, true, false, List, [], ◌∷◌, none,
  some, inl, inr, arith, ◌==◌, Bool-cases, Option-cases, length,
}
use mathlib.Core.List.{reverse_aux}
use connexin.AuditLog.{AuditEvent, Fields}
use connexin.SessionManager.Audit.{
  Sink, SinkRecord, recorded, recovered, AuditState, new_audit_state, note_audit_write_succeeded,
  record_audit_event_safe, AuditHealth, audit_health,
}

pub record_all : Sink → List (AuditEvent × Fields) → AuditState → AuditState
record_all sink [] st = st
record_all sink ((event, fields) ∷ events) st =
    record_all sink events (record_audit_event_safe sink event fields st).0

-- Events that the sink holds, and those that its recovery records account for.
pub accounted : List SinkRecord → ℕ
accounted [] = 0
accounted (recorded event fields ∷ rest) = suc (accounted rest)
accounted (recovered n ∷ rest) = n + accounted rest

-- The events that the sink holds, newest first.
pub events_of : List SinkRecord → List (AuditEvent × Fields)
events_of [] = []
events_of (recorded event fields ∷ rest) = (event, fields) ∷ events_of rest
events_of (recovered n ∷ rest) = events_of rest

-- The first list is the second with some of its events left out.
pub data IsPart : List (AuditEvent × Fields) → List (AuditEvent × Fields) → Type 0 where
  none_left : IsPart [] []
  left_out :
      (e : AuditEvent × Fields) (xs ys : List (AuditEvent × Fields))
      → IsPart xs ys
      → IsPart xs (e ∷ ys)
  held :
      (e : AuditEvent × Fields) (xs ys : List (AuditEvent × Fields))
      → IsPart xs ys
      → IsPart (e ∷ xs) (e ∷ ys)

-- An error is kept exactly as long as records are missing.
pub IsConsistent : AuditState → Type 0
IsConsistent st =
    ((st.dropped_audit_records ≡ 0) × (st.last_audit_error ≡ none))
    ⊎ ((n : ℕ) × (e : ℕ) × (st.dropped_audit_records ≡ suc n) × (st.last_audit_error ≡ some e))

note_keeps :
    (sink : Sink) (st : AuditState)
    → IsConsistent st
    → let st' = note_audit_write_succeeded sink st in
      (accounted st'.written + st'.dropped_audit_records
        ≡ accounted st.written + st.dropped_audit_records)
      × IsConsistent st'
unfolding note_audit_write_succeeded accounted IsConsistent
note_keeps sink st h = elim (Bool-cases (st.dropped_audit_records == 0)) [
  | inl none_lost ↦ rw (none_lost) (refl, h)
  | inr some_lost ↦ elim (Option-cases (sink st.calls)) [
    | inl works ↦ rw (some_lost, works) (omega arith, inl (refl, refl))
    | inr (e, fails) ↦
        rw (some_lost, fails) (refl, inr (st.dropped_audit_records - 1, e, ground arith, refl))
  ]
]

carried :
    (st st' : AuditState)
    → st'.dropped_audit_records ≡ st.dropped_audit_records
    → st'.last_audit_error ≡ st.last_audit_error
    → IsConsistent st
    → IsConsistent st'
unfolding IsConsistent
carried st st' d e (inl (a, b)) = inl (d ∙ a, e ∙ b)
carried st st' d e (inr (n, x, a, b)) = inr (n, x, d ∙ a, e ∙ b)

one_more :
    (sink : Sink) (event : AuditEvent) (fields : Fields) (st : AuditState)
    → IsConsistent st
    → let st' = (record_audit_event_safe sink event fields st).0 in
      (accounted st'.written + st'.dropped_audit_records
        ≡ suc (accounted st.written + st.dropped_audit_records))
      × IsConsistent st'
unfolding record_audit_event_safe accounted
one_more sink event fields st h = elim (Option-cases (sink st.calls)) [
  | inl works ↦
      let tried : AuditState = record st {
        written = recorded event fields ∷ st.written;
        calls = suc st.calls;
      } in
      let (same, consistent) = note_keeps sink tried (carried st tried refl refl h) in
      rw (works) (omega (arith, same), consistent)
  | inr (e, fails) ↦
      rw (fails)
        (omega arith, unfold IsConsistent in inr (st.dropped_audit_records, e, omega arith, refl))
]

new-IsConsistent : IsConsistent new_audit_state
unfolding IsConsistent new_audit_state
new-IsConsistent = inl (refl, refl)

new_empty : accounted new_audit_state.written + new_audit_state.dropped_audit_records ≡ 0
unfolding accounted new_audit_state
new_empty = refl

-- The recovery record is no event.
events_of-note :
    (sink : Sink) (st : AuditState)
    → events_of (note_audit_write_succeeded sink st).written ≡ events_of st.written
unfolding note_audit_write_succeeded events_of
events_of-note sink st = elim (Bool-cases (st.dropped_audit_records == 0)) [
  | inl none_lost ↦ rw (none_lost) refl
  | inr some_lost ↦ elim (Option-cases (sink st.calls)) [
    | inl works ↦ rw (some_lost, works) refl
    | inr (e, fails) ↦ rw (some_lost, fails) refl
  ]
]

one_more-IsPart :
    (sink : Sink) (event : AuditEvent) (fields : Fields) (st : AuditState)
    (past : List (AuditEvent × Fields))
    → IsPart (events_of st.written) past
    → IsPart
        (events_of (record_audit_event_safe sink event fields st).0.written)
        ((event, fields) ∷ past)
unfolding record_audit_event_safe events_of
one_more-IsPart sink event fields st past h = elim (Option-cases (sink st.calls)) [
  | inl works ↦
      let tried : AuditState = record st {
        written = recorded event fields ∷ st.written;
        calls = suc st.calls;
      } in
      rw (works) (
        subst (λ xs. IsPart xs ((event, fields) ∷ past)) (sym (events_of-note sink tried))
          (held (event, fields) (events_of st.written) past h))
  | inr (e, fails) ↦ rw (fails) (left_out (event, fields) (events_of st.written) past h)
]

record_all-IsPart :
    (sink : Sink) (events past : List (AuditEvent × Fields)) (st : AuditState)
    → IsPart (events_of st.written) past
    → IsPart (events_of (record_all sink events st).written) (reverse_aux events past)
unfolding record_all
record_all-IsPart sink [] past st h = h
record_all-IsPart sink ((event, fields) ∷ events) past st h =
    record_all-IsPart sink events ((event, fields) ∷ past)
      (record_audit_event_safe sink event fields st).0 (one_more-IsPart sink event fields st past h)

none_written : IsPart (events_of new_audit_state.written) []
unfolding events_of new_audit_state
none_written = none_left

-- Good, with nothing lost and no error; or bad, with a number of lost records and an error.
pub data IsTruthful (h : AuditHealth) : Type 0 where
  good : h.healthy ≡ true → h.dropped_records ≡ 0 → h.error ≡ none → IsTruthful h
  bad :
      (lost e : ℕ)
      → h.healthy ≡ false
      → h.dropped_records ≡ suc lost
      → h.error ≡ some e
      → IsTruthful h

audit_health-IsTruthful : (st : AuditState) → IsConsistent st → IsTruthful (audit_health st)
unfolding audit_health IsConsistent
audit_health-IsTruthful st (inl (a, b)) = good (rw (a) refl) a b
audit_health-IsTruthful st (inr (n, e, a, b)) = bad n e (ground arith) a b

record_all_keeps :
    (sink : Sink) (events : List (AuditEvent × Fields)) (st : AuditState)
    → IsConsistent st
    → let st' = record_all sink events st in
      (accounted st'.written + st'.dropped_audit_records
        ≡ length events + (accounted st.written + st.dropped_audit_records))
      × IsConsistent st'
unfolding record_all
record_all_keeps sink [] st h = (omega arith, h)
record_all_keeps sink ((event, fields) ∷ events) st h =
    let (one, here) = one_more sink event fields st h in
    let (all, there) =
      record_all_keeps sink events (record_audit_event_safe sink event fields st).0 here in
    (omega arith, there)

-- Whatever calls of the sink fail: the number of the events recorded so far is that of the events in
-- the sink, of those that the recovery records in the sink count, and of `droppedRecords`; the
-- events in the sink are among those recorded, in their order; and the health is either good, with
-- `droppedRecords` zero and no error, or bad, with `droppedRecords` positive and an error.
pub audit_conservation :
    (sink : Sink) (events : List (AuditEvent × Fields))
    → let st = record_all sink events new_audit_state in
      (accounted st.written + (audit_health st).dropped_records ≡ length events)
      × IsPart (events_of st.written) (reverse events)
      × IsTruthful (audit_health st)
unfolding audit_health
audit_conservation sink events =
    let (all, here) = record_all_keeps sink events new_audit_state new-IsConsistent in
    (
      omega (arith, new_empty),
      record_all-IsPart sink events [] new_audit_state none_written,
      audit_health-IsTruthful _ here,
    )

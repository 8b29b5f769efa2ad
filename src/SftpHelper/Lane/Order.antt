-- ===== src/SftpHelper/Lane/Order.antt =====
-- Whether the transfers of src/server/sftp-helper.ts exclude each other.
use connexin.Prelude.{
  ℕ, zero, suc, ◌≤◌, ◌≡◌, refl, sym, ap, subst, ◌∙◌, Bool, true, false, List, [], ◌∷◌, ◌++◌, Option,
  none, some, append_assoc, arith, if◌then◌else◌, length,
}
use mathlib.Core.Option
use connexin.SftpHelper.{ChildSftpHelper, dispose}
use connexin.SftpHelper.Lane.{
  Transfer, waiting, running, released, is_released, TransferLane, resume, abandon, finish,
  LaneEvent, called, helper_aborted, resumed, abandoned, ended, on_lane_event, on_lane_events,
  count_running, with_transfers, on_lane_events-cons,
}

-- Behind the first call that is not released, all wait.
abbrev AllWait : List Transfer → Type 0
AllWait [] = Unit
AllWait (waiting ∷ rest) = AllWait rest
AllWait (running ∷ rest) = ⊥
AllWait (released ∷ rest) = ⊥

abbrev IsOrdered : List Transfer → Type 0
IsOrdered [] = Unit
IsOrdered (released ∷ rest) = IsOrdered rest
IsOrdered (waiting ∷ rest) = AllWait rest
IsOrdered (running ∷ rest) = AllWait rest

abbrev OrderKept : Option (List Transfer) → Type 0
OrderKept none = Unit
OrderKept (some ts) = IsOrdered ts

AllWait-IsOrdered : (ts : List Transfer) → AllWait ts → IsOrdered ts
AllWait-IsOrdered [] h = tt
AllWait-IsOrdered (waiting ∷ ts) h = h
AllWait-IsOrdered (running ∷ ts) h = absurd h
AllWait-IsOrdered (released ∷ ts) h = absurd h

AllWait-count_running : (ts : List Transfer) → AllWait ts → count_running ts ≡ 0
AllWait-count_running [] h = refl
AllWait-count_running (waiting ∷ ts) h = AllWait-count_running ts h
AllWait-count_running (running ∷ ts) h = absurd h
AllWait-count_running (released ∷ ts) h = absurd h

IsOrdered-count_running : (ts : List Transfer) → IsOrdered ts → count_running ts ≤ 1
IsOrdered-count_running [] h = omega arith
IsOrdered-count_running (released ∷ ts) h = IsOrdered-count_running ts h
IsOrdered-count_running (waiting ∷ ts) h = omega (arith, AllWait-count_running ts h)
IsOrdered-count_running (running ∷ ts) h = omega (arith, AllWait-count_running ts h)

called-AllWait : (ts : List Transfer) → AllWait ts → AllWait (ts ++ waiting ∷ [])
called-AllWait [] h = tt
called-AllWait (waiting ∷ ts) h = called-AllWait ts h
called-AllWait (running ∷ ts) h = absurd h
called-AllWait (released ∷ ts) h = absurd h

called-IsOrdered : (ts : List Transfer) → IsOrdered ts → IsOrdered (ts ++ waiting ∷ [])
called-IsOrdered [] h = tt
called-IsOrdered (released ∷ ts) h = called-IsOrdered ts h
called-IsOrdered (waiting ∷ ts) h = called-AllWait ts h
called-IsOrdered (running ∷ ts) h = called-AllWait ts h

released-OrderKept :
    (o : Option (List Transfer)) → OrderKept o → OrderKept (Option.map (λ ts. released ∷ ts) o)
released-OrderKept none h = tt
released-OrderKept (some ts) h = h

-- Nothing behind a call that is not released can go on or end.
resume_blocked :
    (aborted : Bool) (i : ℕ) (ts : List Transfer) → AllWait ts → resume aborted false i ts ≡ none
unfolding resume
resume_blocked aborted i [] h = refl
resume_blocked aborted zero (waiting ∷ ts) h = refl
resume_blocked aborted (suc i) (waiting ∷ ts) h =
    ap (Option.map (λ ts. waiting ∷ ts)) (resume_blocked aborted i ts h)
resume_blocked aborted i (running ∷ ts) h = absurd h
resume_blocked aborted i (released ∷ ts) h = absurd h

finish_blocked : (i : ℕ) (ts : List Transfer) → AllWait ts → finish i ts ≡ none
unfolding finish
finish_blocked i [] h = refl
finish_blocked zero (waiting ∷ ts) h = refl
finish_blocked (suc i) (waiting ∷ ts) h =
    ap (Option.map (λ ts. waiting ∷ ts)) (finish_blocked i ts h)
finish_blocked i (running ∷ ts) h = absurd h
finish_blocked i (released ∷ ts) h = absurd h

resume-OrderKept :
    (aborted : Bool) (i : ℕ) (ts : List Transfer)
    → IsOrdered ts
    → OrderKept (resume aborted true i ts)
unfolding resume
resume-OrderKept aborted i [] h = tt
resume-OrderKept true zero (waiting ∷ ts) h = AllWait-IsOrdered ts h
resume-OrderKept false zero (waiting ∷ ts) h = h
resume-OrderKept aborted zero (running ∷ ts) h = tt
resume-OrderKept aborted zero (released ∷ ts) h = tt
resume-OrderKept aborted (suc i) (released ∷ ts) h =
    released-OrderKept (resume aborted true i ts) (resume-OrderKept aborted i ts h)
resume-OrderKept aborted (suc i) (waiting ∷ ts) h =
    subst (λ o. OrderKept (Option.map (λ ts. waiting ∷ ts) o)) (sym (resume_blocked aborted i ts h))
      tt
resume-OrderKept aborted (suc i) (running ∷ ts) h =
    subst (λ o. OrderKept (Option.map (λ ts. running ∷ ts) o)) (sym (resume_blocked aborted i ts h))
      tt

finish-OrderKept : (i : ℕ) (ts : List Transfer) → IsOrdered ts → OrderKept (finish i ts)
unfolding finish
finish-OrderKept i [] h = tt
finish-OrderKept zero (running ∷ ts) h = AllWait-IsOrdered ts h
finish-OrderKept zero (waiting ∷ ts) h = tt
finish-OrderKept zero (released ∷ ts) h = tt
finish-OrderKept (suc i) (released ∷ ts) h =
    released-OrderKept (finish i ts) (finish-OrderKept i ts h)
finish-OrderKept (suc i) (waiting ∷ ts) h =
    subst (λ o. OrderKept (Option.map (λ ts. waiting ∷ ts) o)) (sym (finish_blocked i ts h)) tt
finish-OrderKept (suc i) (running ∷ ts) h =
    subst (λ o. OrderKept (Option.map (λ ts. running ∷ ts) o)) (sym (finish_blocked i ts h)) tt

-- No call is given up while it waits.
abbrev pub NoneAbandoned : List LaneEvent → Type 0
NoneAbandoned [] = Unit
NoneAbandoned (abandoned i ∷ events) = ⊥
NoneAbandoned (called ∷ events) = NoneAbandoned events
NoneAbandoned (helper_aborted ∷ events) = NoneAbandoned events
NoneAbandoned (resumed aborted i ∷ events) = NoneAbandoned events
NoneAbandoned (ended i ∷ events) = NoneAbandoned events

abbrev LaneKept : Option TransferLane → Type 0
LaneKept none = Unit
LaneKept (some lane) = IsOrdered lane.transfers

kept :
    (helper : ChildSftpHelper) (o : Option (List Transfer))
    → OrderKept o
    → LaneKept (Option.map (λ ts. record { transfers = ts; helper = helper }) o)
kept helper none h = tt
kept helper (some ts) h = h

event-LaneKept :
    (event : LaneEvent) (events : List LaneEvent) (lane : TransferLane)
    → NoneAbandoned (event ∷ events)
    → IsOrdered lane.transfers
    → LaneKept (on_lane_event event lane) × NoneAbandoned events
unfolding on_lane_event
event-LaneKept called events lane none_left h = (called-IsOrdered lane.transfers h, none_left)
event-LaneKept helper_aborted events lane none_left h = (h, none_left)
event-LaneKept (resumed aborted i) events lane none_left h = (
  kept (if aborted then dispose lane.helper else lane.helper) (resume aborted true i lane.transfers)
      (resume-OrderKept aborted i lane.transfers h),
  none_left,
)
event-LaneKept (abandoned i) events lane none_left h = absurd none_left
event-LaneKept (ended i) events lane none_left h =
    (kept lane.helper (finish i lane.transfers) (finish-OrderKept i lane.transfers h), none_left)

events-LaneKept :
    (events : List LaneEvent) (lane : TransferLane)
    → NoneAbandoned events
    → IsOrdered lane.transfers
    → LaneKept (on_lane_events events lane)
unfolding on_lane_events
events-LaneKept [] lane none_left h = h
events-LaneKept (event ∷ events) lane none_left h =
    let (one, more) = event-LaneKept event events lane none_left h in
    then_kept (on_lane_event event lane) one (λ lane' h'. events-LaneKept events lane' more h')
  where
    then_kept :
        (o : Option TransferLane)
        → LaneKept o
        → ((lane' : TransferLane)
            → IsOrdered lane'.transfers
            → LaneKept (on_lane_events events lane'))
        → LaneKept (elim o as (λ _. Option TransferLane) [
          | none ↦ none
          | some lane' ↦ on_lane_events events lane'
        ])
    then_kept none k f = tt
    then_kept (some lane') k f = f lane' k

-- From an empty lane, as long as no call is aborted while it waits, at most one operation runs at
-- a time.
pub lane_exclusive :
    (helper : ChildSftpHelper) (events : List LaneEvent) (lane : TransferLane)
    → NoneAbandoned events
    → on_lane_events events (record { transfers = []; helper = helper }) ≡ some lane
    → count_running lane.transfers ≤ 1
lane_exclusive helper events lane none_left e = IsOrdered-count_running lane.transfers (
    subst LaneKept e
      (events-LaneKept events (record { transfers = []; helper = helper }) none_left tt))

-- The lane with these two calls behind others.
abandon-last :
    (front : List Transfer)
    → abandon (length front) (front ++ waiting ∷ []) ≡ some (front ++ released ∷ [])
unfolding abandon
abandon-last [] = refl
abandon-last (t ∷ front) = ap (Option.map (λ ts. t ∷ ts)) (abandon-last front)

resume-last :
    (front : List Transfer) (before : Bool)
    → resume false before (suc (length front)) (front ++ released ∷ waiting ∷ [])
      ≡ some (front ++ released ∷ running ∷ [])
unfolding resume
resume-last [] before = refl
resume-last (t ∷ front) before = ap (Option.map (λ ts. t ∷ ts)) (resume-last front (is_released t))

count_running-last :
    (front : List Transfer)
    → count_running (front ++ released ∷ running ∷ []) ≡ suc (count_running front)
count_running-last [] = refl
count_running-last (waiting ∷ front) = count_running-last front
count_running-last (running ∷ front) = ap suc (count_running-last front)
count_running-last (released ∷ front) = count_running-last front

-- A call that is aborted while it waits lets the next one overtake those before it: the next
-- operation then runs beside any that runs already.
pub lane_overtaken :
    (helper : ChildSftpHelper) (front : List Transfer)
    → (lane : TransferLane) × (on_lane_events
          (abandoned (length front) ∷ called ∷ resumed false (suc (length front)) ∷ [])
          (record { transfers = front ++ waiting ∷ []; helper = helper })
        ≡ some lane)
      × (count_running lane.transfers ≡ suc (count_running front))
unfolding on_lane_events on_lane_event
lane_overtaken helper front =
    let at : List Transfer → TransferLane = λ ts. record { transfers = ts; helper = helper } in
    let after = front ++ released ∷ [] in
    let called_after = front ++ released ∷ waiting ∷ [] in
    let last = front ++ released ∷ running ∷ [] in
    let turn = resumed false (suc (length front)) in
    (
      record { transfers = front ++ released ∷ running ∷ []; helper = helper },
      on_lane_events-cons (abandoned (length front)) (called ∷ turn ∷ [])
            (at (front ++ waiting ∷ [])) (at after)
            (ap (with_transfers helper) (abandon-last front))
          ∙ on_lane_events-cons called (turn ∷ []) (at after) (at called_after)
              (ap (λ ts. some (at ts)) (append_assoc front (released ∷ []) (waiting ∷ [])))
          ∙ on_lane_events-cons turn [] (at called_after) (at last)
              (ap (with_transfers helper) (resume-last front true)),
      count_running-last front,
    )

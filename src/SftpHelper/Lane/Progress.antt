-- ===== src/SftpHelper/Lane/Progress.antt =====
-- The transfers of src/server/sftp-helper.ts all get their turn.
use connexin.Prelude.{
  ℕ, zero, suc, ◌+◌, ◌≡◌, refl, sym, ap, Bool, true, false, List, [], ◌∷◌, ◌++◌, Option, none, some,
  if◌then◌else◌, arith,
}
use mathlib.Core.Option
use connexin.SftpHelper.{ChildSftpHelper, dispose}
use connexin.SftpHelper.Lane.{
  Transfer, waiting, running, released, is_released, TransferLane, resume, abandon, finish,
  LaneEvent, called, helper_aborted, resumed, abandoned, ended, on_lane_event, on_lane_events,
  with_transfers,
}

-- The steps that a call still has before it.
abbrev pub steps : Transfer → ℕ
steps waiting = 2
steps running = 1
steps released = 0

abbrev pub work : List Transfer → ℕ
work [] = 0
work (t ∷ rest) = steps t + work rest

-- The steps that an event does away with.
abbrev pub done_by : LaneEvent → ℕ
done_by called = 0
done_by helper_aborted = 0
done_by (resumed true i) = 2
done_by (resumed false i) = 1
done_by (abandoned i) = 2
done_by (ended i) = 1

abbrev pub added_by : LaneEvent → ℕ
added_by called = 2
added_by helper_aborted = 0
added_by (resumed aborted i) = 0
added_by (abandoned i) = 0
added_by (ended i) = 0

abbrev pub all_done_by : List LaneEvent → ℕ
all_done_by [] = 0
all_done_by (event ∷ events) = done_by event + all_done_by events

abbrev pub all_added_by : List LaneEvent → ℕ
all_added_by [] = 0
all_added_by (event ∷ events) = added_by event + all_added_by events

-- Where the step can happen, it does away with so much of the work.
abbrev Leaves : (done before : ℕ) → Option (List Transfer) → Type 0
Leaves done before none = Unit
Leaves done before (some ts) = done + work ts ≡ before

behind-Leaves :
    (done before : ℕ) (t : Transfer) (o : Option (List Transfer))
    → Leaves done before o
    → Leaves done (steps t + before) (Option.map (λ ts. t ∷ ts) o)
behind-Leaves done before t none h = tt
behind-Leaves done before t (some ts) h = omega arith

resume-Leaves :
    (aborted before : Bool) (i : ℕ) (ts : List Transfer)
    → Leaves (done_by (resumed aborted i)) (work ts) (resume aborted before i ts)
unfolding resume
resume-Leaves aborted before i [] = tt
resume-Leaves true true zero (waiting ∷ ts) = omega arith
resume-Leaves false true zero (waiting ∷ ts) = omega arith
resume-Leaves aborted false zero (waiting ∷ ts) = tt
resume-Leaves aborted before zero (running ∷ ts) = tt
resume-Leaves aborted before zero (released ∷ ts) = tt
resume-Leaves true before (suc i) (t ∷ ts) =
    behind-Leaves 2 (work ts) t (resume true (is_released t) i ts)
      (resume-Leaves true (is_released t) i ts)
resume-Leaves false before (suc i) (t ∷ ts) =
    behind-Leaves 1 (work ts) t (resume false (is_released t) i ts)
      (resume-Leaves false (is_released t) i ts)

abandon-Leaves : (i : ℕ) (ts : List Transfer) → Leaves 2 (work ts) (abandon i ts)
unfolding abandon
abandon-Leaves i [] = tt
abandon-Leaves zero (waiting ∷ ts) = omega arith
abandon-Leaves zero (running ∷ ts) = tt
abandon-Leaves zero (released ∷ ts) = tt
abandon-Leaves (suc i) (t ∷ ts) = behind-Leaves 2 (work ts) t (abandon i ts) (abandon-Leaves i ts)

finish-Leaves : (i : ℕ) (ts : List Transfer) → Leaves 1 (work ts) (finish i ts)
unfolding finish
finish-Leaves i [] = tt
finish-Leaves zero (running ∷ ts) = omega arith
finish-Leaves zero (waiting ∷ ts) = tt
finish-Leaves zero (released ∷ ts) = tt
finish-Leaves (suc i) (t ∷ ts) = behind-Leaves 1 (work ts) t (finish i ts) (finish-Leaves i ts)

work-called : (ts : List Transfer) → work (ts ++ waiting ∷ []) ≡ 2 + work ts
work-called [] = refl
work-called (t ∷ ts) = omega (arith, work-called ts)

-- The same for an event.
abbrev LaneLeaves : (done before : ℕ) → Option TransferLane → Type 0
LaneLeaves done before none = Unit
LaneLeaves done before (some lane) = done + work lane.transfers ≡ before

with_transfers-LaneLeaves :
    (helper : ChildSftpHelper) (done before : ℕ) (o : Option (List Transfer))
    → Leaves done before o
    → LaneLeaves done (0 + before) (with_transfers helper o)
with_transfers-LaneLeaves helper done before none h = tt
with_transfers-LaneLeaves helper done before (some ts) h = omega arith

on_lane_event-LaneLeaves :
    (event : LaneEvent) (lane : TransferLane)
    → LaneLeaves (done_by event) (added_by event + work lane.transfers) (on_lane_event event lane)
unfolding on_lane_event
on_lane_event-LaneLeaves called lane = omega (arith, work-called lane.transfers)
on_lane_event-LaneLeaves helper_aborted lane = omega arith
on_lane_event-LaneLeaves (resumed true i) lane =
    with_transfers-LaneLeaves (dispose lane.helper) 2 (work lane.transfers)
      (resume true true i lane.transfers) (resume-Leaves true true i lane.transfers)
on_lane_event-LaneLeaves (resumed false i) lane =
    with_transfers-LaneLeaves lane.helper 1 (work lane.transfers)
      (resume false true i lane.transfers) (resume-Leaves false true i lane.transfers)
on_lane_event-LaneLeaves (abandoned i) lane =
    with_transfers-LaneLeaves lane.helper 2 (work lane.transfers) (abandon i lane.transfers)
      (abandon-Leaves i lane.transfers)
on_lane_event-LaneLeaves (ended i) lane =
    with_transfers-LaneLeaves lane.helper 1 (work lane.transfers) (finish i lane.transfers)
      (finish-Leaves i lane.transfers)

-- What can happen next to the calls: the first that is not released is in its operation, which can
-- end, or has its turn, whether its signal is aborted or not.
data Next (ts : List Transfer) : Type 0 where
  all_done : work ts ≡ 0 → Next ts
  can_resume :
      (i : ℕ)
      → ((aborted : Bool) → (ts' : List Transfer) × (resume aborted true i ts ≡ some ts'))
      → Next ts
  can_finish : (i : ℕ) (ts' : List Transfer) → finish i ts ≡ some ts' → Next ts

step_left : (ts : List Transfer) → Next ts
unfolding resume finish
step_left [] = all_done refl
step_left (waiting ∷ rest) =
    can_resume zero (λ aborted. ((if aborted then released else running) ∷ rest, refl))
step_left (running ∷ rest) = can_finish zero (released ∷ rest) refl
step_left (released ∷ rest) = behind (step_left rest)
  where
    behind : Next rest → Next (released ∷ rest)
    behind (all_done h) = all_done (omega arith)
    behind (can_resume i goes) = can_resume (suc i) (λ aborted.
        let (ts', e) = goes aborted in (released ∷ ts', ap (Option.map (λ ts. released ∷ ts)) e))
    behind (can_finish i ts' e) =
        can_finish (suc i) (released ∷ ts') (ap (Option.map (λ ts. released ∷ ts)) e)

-- The step that can happen next, as an event of the lane.
pub data NextEvent (lane : TransferLane) : Type 0 where
  lane_done : work lane.transfers ≡ 0 → NextEvent lane
  has_turn :
      (i : ℕ)
      → ((aborted : Bool)
          → (lane' : TransferLane) × (on_lane_event (resumed aborted i) lane ≡ some lane'))
      → NextEvent lane
  can_end :
      (i : ℕ) (lane' : TransferLane) → on_lane_event (ended i) lane ≡ some lane' → NextEvent lane

next_event : (lane : TransferLane) → NextEvent lane
unfolding on_lane_event
next_event lane = of_list (step_left lane.transfers)
  where
    of_list : Next lane.transfers → NextEvent lane
    of_list (all_done h) = lane_done h
    of_list (can_resume i goes) = has_turn i (λ aborted.
        let helper = if aborted then dispose lane.helper else lane.helper in
        let (ts', e) = goes aborted in
        (record { transfers = ts'; helper = helper }, ap (with_transfers helper) e))
    of_list (can_finish i ts' e) =
        can_end i (record { transfers = ts'; helper = lane.helper })
          (ap (with_transfers lane.helper) e)

all_events-work :
    (events : List LaneEvent) (lane lane' : TransferLane)
    → on_lane_events events lane ≡ some lane'
    → all_done_by events + work lane'.transfers ≡ all_added_by events + work lane.transfers
unfolding on_lane_events
all_events-work [] lane lane' e =
    ap (λ l. 0 + work l.transfers) (sym (Option.some-injective lane lane' e))
all_events-work (event ∷ events) lane lane' e =
    one (on_lane_event event lane) (on_lane_event-LaneLeaves event lane) e
      (λ next h. all_events-work events next lane' h)
  where
    one :
        (o : Option TransferLane)
        → LaneLeaves (done_by event) (added_by event + work lane.transfers) o
        → (elim o as (λ _. Option TransferLane) [
          | none ↦ none
          | some next ↦ on_lane_events events next
        ])
          ≡ some lane'
        → ((next : TransferLane)
            → on_lane_events events next ≡ some lane'
            → all_done_by events + work lane'.transfers ≡ all_added_by events + work next.transfers)
        → done_by event + all_done_by events + work lane'.transfers
          ≡ added_by event + all_added_by events + work lane.transfers
    one none h e rest = cc
    one (some next) h e rest = omega (arith, rest next e, h)

-- A call has two steps, to go on and to release the lane, and takes both at once when it is aborted
-- before its operation. Over any events that can happen, aborts included, the steps taken and those
-- still to take are those that there were and two for each call that came. And the lane is not
-- stuck: unless no step is left, an operation runs and can end, or a call that waits has its turn
-- and can go on, whether its signal is aborted then or not.
pub lane_never_stuck :
    (events : List LaneEvent) (lane lane' : TransferLane)
    → on_lane_events events lane ≡ some lane'
    → (all_done_by events + work lane'.transfers ≡ all_added_by events + work lane.transfers)
      × NextEvent lane'
lane_never_stuck events lane lane' e = (all_events-work events lane lane' e, next_event lane')

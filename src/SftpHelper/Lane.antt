-- ===== src/SftpHelper/Lane.antt =====
-- `exclusiveTransfer` of src/server/sftp-helper.ts: calls that wait for each other. A call waits for
-- the promise `transferTail` that it found, which is the one of the call before it.
pub mod Order
pub mod Progress
use connexin.Prelude.{
  ℕ, zero, suc, ◌≡◌, ap, Bool, true, false, List, [], ◌∷◌, ◌++◌, Option, none, some, if◌then◌else◌,
}
use mathlib.Core.Option
use connexin.SftpHelper.{ChildSftpHelper, dispose}

-- Before its turn, in its operation, or behind `release()`.
pub data Transfer : Type 0 where
  waiting running released : Transfer

abbrev pub is_released : Transfer → Bool
is_released released = true
is_released other = false

-- The calls, oldest first.
pub record TransferLane : Type 0 where
  pub transfers : List Transfer
  pub helper : ChildSftpHelper

-- The promise before the call at the index is resolved, and the call goes on.
unfoldable pub resume :
    (aborted : Bool) → (before : Bool) → ℕ → List Transfer → Option (List Transfer)
resume aborted before i [] = none
resume aborted before zero (waiting ∷ rest) =
    if before then some ((if aborted then released else running) ∷ rest) else none
resume aborted before zero (running ∷ rest) = none
resume aborted before zero (released ∷ rest) = none
resume aborted before (suc i) (t ∷ rest) =
    Option.map (λ ts. t ∷ ts) (resume aborted (is_released t) i rest)

-- The signal of a call that waits is aborted: the race is lost, and the `finally` releases.
unfoldable pub abandon : ℕ → List Transfer → Option (List Transfer)
abandon i [] = none
abandon zero (waiting ∷ rest) = some (released ∷ rest)
abandon zero (running ∷ rest) = none
abandon zero (released ∷ rest) = none
abandon (suc i) (t ∷ rest) = Option.map (λ ts. t ∷ ts) (abandon i rest)

-- The operation of a call ends, one way or the other.
unfoldable pub finish : ℕ → List Transfer → Option (List Transfer)
finish i [] = none
finish zero (running ∷ rest) = some (released ∷ rest)
finish zero (waiting ∷ rest) = none
finish zero (released ∷ rest) = none
finish (suc i) (t ∷ rest) = Option.map (λ ts. t ∷ ts) (finish i rest)

pub data LaneEvent : Type 0 where
  called helper_aborted : LaneEvent
  -- With `signal.aborted` at that time.
  resumed : (aborted : Bool) → ℕ → LaneEvent
  abandoned ended : ℕ → LaneEvent

abbrev pub with_transfers : ChildSftpHelper → Option (List Transfer) → Option TransferLane
with_transfers helper ts = Option.map (λ ts. record { transfers = ts; helper = helper }) ts

-- One event; `none` where it cannot happen. `helper_aborted` is the `abort` listener of a call in
-- its operation.
unfoldable pub on_lane_event : LaneEvent → TransferLane → Option TransferLane
unfolding resume abandon finish dispose
on_lane_event called lane = some (record lane { transfers = lane.transfers ++ waiting ∷ [] })
on_lane_event helper_aborted lane = some (record lane { helper = dispose lane.helper })
on_lane_event (resumed aborted i) lane =
    with_transfers (if aborted then dispose lane.helper else lane.helper)
      (resume aborted true i lane.transfers)
on_lane_event (abandoned i) lane = with_transfers lane.helper (abandon i lane.transfers)
on_lane_event (ended i) lane = with_transfers lane.helper (finish i lane.transfers)

unfoldable pub on_lane_events : List LaneEvent → TransferLane → Option TransferLane
unfolding on_lane_event
on_lane_events [] lane = some lane
on_lane_events (event ∷ events) lane = elim (on_lane_event event lane) [
  | none ↦ none
  | some lane' ↦ on_lane_events events lane'
]

abbrev pub count_running : List Transfer → ℕ
count_running [] = 0
count_running (running ∷ rest) = suc (count_running rest)
count_running (waiting ∷ rest) = count_running rest
count_running (released ∷ rest) = count_running rest

pub on_lane_events-cons :
    (event : LaneEvent) (events : List LaneEvent) (lane lane' : TransferLane)
    → on_lane_event event lane ≡ some lane'
    → on_lane_events (event ∷ events) lane ≡ on_lane_events events lane'
unfolding on_lane_events
on_lane_events-cons event events lane lane' e =
    ap
      (λ (o : Option TransferLane). elim o as (λ _. Option TransferLane) [
        | none ↦ none
        | some next ↦ on_lane_events events next
      ])
      e

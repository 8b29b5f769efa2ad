-- ===== src/Tests/Helpers.antt =====
-- The theorems on the SFTP helper at concrete events.
use connexin.Prelude.{
  ℕ, ◌+◌, ◌≤◌, ◌<◌, ◌≡◌, refl, true, false, List, [], ◌∷◌, none, some, codes, Bool,
}
use connexin.Utf8.{Text}
use connexin.Numbers.{natural}
use connexin.SftpHelper.{
  ChildSftpHelper, new_helper, dispose, refused, turned_away, request, message, null_value,
  handle_line, on_close, HelperEvent, requested, line_read, stderr_read, on_events,
}
use connexin.SftpHelper.Accounting.{
  settlements, IsAccounted, on_events-IsAccounted, on_close-settles_all,
}
use connexin.SftpHelper.Lane.{
  waiting, running, released, TransferLane, LaneEvent, called, resumed, abandoned, ended,
  on_lane_events, count_running,
}
use connexin.SftpHelper.Lane.Order.{lane_exclusive, lane_overtaken}
use connexin.SftpHelper.Lane.Progress.{work, all_done_by, all_added_by, NextEvent, lane_never_stuck}

-- Two requests fit and a third does not; the second is answered, twice, and the first waits.
abbrev exchange : List HelperEvent
exchange =
    requested true (codes "root")
    ∷ requested true (codes "list")
    ∷ requested true (codes "lstat")
    ∷ line_read (message (some (natural 1)) (some (natural 2)) (some (codes "not_found")) [])
    ∷ line_read (message (some (natural 1)) (some (natural 2)) none (codes "late"))
    ∷ stderr_read 70000
    ∷ []

abbrev after_exchange : ChildSftpHelper
after_exchange = record (new_helper 2) {
  next_id = 3;
  stderr_bytes = 65536;
  pending = 1 ∷ [];
  settled = (2, refused (codes "not_found")) ∷ [];
  sent = (2, codes "list") ∷ (1, codes "root") ∷ [];
}

exchanged : on_events exchange (new_helper 2) ≡ some after_exchange
unfolding on_events
exchanged = refl

on_events-IsAccounted_example : IsAccounted after_exchange
on_events-IsAccounted_example = on_events-IsAccounted 2 exchange after_exchange exchanged

on_close-settles_all_example :
    ((id : ℕ) → 0 < id → id < 3 → settlements id (on_close after_exchange) ≡ 1)
    × ((writable : Bool) (body : Text)
        → request writable body (on_close after_exchange)
          ≡ (turned_away (codes "helper_closed"), on_close after_exchange))
on_close-settles_all_example = on_close-settles_all 2 exchange after_exchange exchanged

-- The value `null` has no properties, and the listener throws.
null_throws : handle_line null_value (new_helper 2) ≡ none
unfolding handle_line
null_throws = refl

abbrev turns : List LaneEvent
turns = called ∷ called ∷ resumed false 0 ∷ ended 0 ∷ resumed false 1 ∷ called ∷ []

abbrev after_turns : TransferLane
after_turns = record { transfers = released ∷ running ∷ waiting ∷ []; helper = new_helper 2 }

turned : on_lane_events turns (record { transfers = []; helper = new_helper 2 }) ≡ some after_turns
unfolding on_lane_events
turned = refl

lane_exclusive_example : 1 ≤ 1
lane_exclusive_example = lane_exclusive (new_helper 2) turns after_turns tt turned

lane_overtaken_example :
    (lane : TransferLane) × (on_lane_events
        (abandoned 1 ∷ called ∷ resumed false 2 ∷ [])
        (record { transfers = running ∷ waiting ∷ []; helper = new_helper 2 })
      ≡ some lane)
    × (count_running lane.transfers ≡ 2)
lane_overtaken_example = lane_overtaken (new_helper 2) (running ∷ [])

abbrev given_up : List LaneEvent
given_up = called ∷ abandoned 2 ∷ ended 1 ∷ resumed true 3 ∷ []

abbrev lane_after : TransferLane
lane_after = record {
  transfers = released ∷ released ∷ released ∷ released ∷ [];
  helper = dispose (new_helper 2);
}

gave_up : on_lane_events given_up after_turns ≡ some lane_after
unfolding on_lane_events dispose
gave_up = refl

lane_never_stuck_example :
    (all_done_by given_up + work lane_after.transfers
      ≡ all_added_by given_up + work after_turns.transfers)
    × NextEvent lane_after
lane_never_stuck_example = lane_never_stuck given_up after_turns lane_after gave_up

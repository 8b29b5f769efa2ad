-- ===== src/SessionManager/Session.antt =====
-- The data of src/server/session-manager.ts, and the output chunks of a session.
use connexin.Prelude.{
  ℕ, ◌+◌, ◌-◌, Bool, true, false, ◌||◌, List, [], ◌∷◌, ◌++◌, Option, none, some, ltb, if◌then◌else◌,
  filter, length,
}
use connexin.Utf8.{Text, utf8_byte_length, take_last_utf8_bytes}
use connexin.BoundedTextBuffer.{BoundedTextBuffer, byte_length, to_string}
use connexin.BoundedTextBuffer

pub data DeviceDanger : Type 0 where
  normal caution danger : DeviceDanger

pub record ConnexinPublicSession : Type 0 where
  pub session_id : Text
  pub device : Text
  pub reason : Option Text
  pub suggested_command : Option Text
  pub device_label : Option Text
  pub device_group : Option Text
  pub device_danger : Option DeviceDanger
  pub device_default_shell : Option Text

-- `chunk_data` is the source's `data`.
pub record ConnexinOutputChunk : Type 0 where
  pub seq : ℕ
  pub chunk_data : Text
  pub truncated : Bool
  pub original_bytes : Option ℕ
  pub retained_bytes : Option ℕ

-- Pseudo terminals, file sessions and listener registrations are handles of objects outside.
pub record ConnexinSession : Type 0 where
  pub id : Text
  pub app_token : Text
  pub ws_token : Text
  pub file_token : Text
  pub file_session : Option ℕ
  pub pty : Option ℕ
  pub public_summary : ConnexinPublicSession
  pub created_at : ℕ
  pub last_activity_at : ℕ
  pub exited : Bool
  pub exit_code : Option ℕ
  pub scrollback : BoundedTextBuffer
  pub output_chunks : List ConnexinOutputChunk
  pub output_chunk_bytes : ℕ
  pub next_output_seq : ℕ
  pub disposables : List ℕ
  pub closing : Bool

abbrev pub max_output_chunks : ℕ
max_output_chunks = 256

-- The loop of `appendOutputChunk` that shifts chunks off the front; a round needs a chunk.
unfoldable pub shift_chunks : ℕ → List ConnexinOutputChunk → ℕ → List ConnexinOutputChunk × ℕ
shift_chunks limit [] bytes = ([], bytes)
shift_chunks limit (removed ∷ rest) bytes =
    let shifted = shift_chunks limit rest (bytes - utf8_byte_length removed.chunk_data) in
    if ltb limit bytes || ltb max_output_chunks (length (removed ∷ rest))
    then shifted
    else (removed ∷ rest, bytes)

abbrev pub output_chunk : ℕ → Text → ℕ → ConnexinOutputChunk
output_chunk seq text limit =
    let original_bytes = utf8_byte_length text in
    let retained = take_last_utf8_bytes text limit in
    let was_truncated = ltb retained.bytes original_bytes in
    record {
      seq = seq;
      chunk_data = retained.text;
      truncated = was_truncated;
      original_bytes = if was_truncated then some original_bytes else none;
      retained_bytes = if was_truncated then some retained.bytes else none;
    }

-- `limit` is `config.maxScrollbackBytes`.
unfoldable pub append_output_chunk : ℕ → ConnexinSession → Text → ConnexinSession
unfolding shift_chunks
append_output_chunk limit session [] = session
append_output_chunk limit session (unit ∷ rest) =
    let text = unit ∷ rest in
    let chunk = output_chunk session.next_output_seq text limit in
    let (kept, bytes) =
      shift_chunks limit (session.output_chunks ++ chunk ∷ [])
        (session.output_chunk_bytes + (take_last_utf8_bytes text limit).bytes) in
    record session {
      output_chunks = kept;
      output_chunk_bytes = bytes;
      next_output_seq = session.next_output_seq + 1;
    }

abbrev pub or_else : Option ℕ → ℕ → ℕ
or_else none d = d
or_else (some n) d = n

unfoldable pub chunk_truncated_bytes : ConnexinOutputChunk → ℕ
chunk_truncated_bytes chunk =
    if chunk.truncated
    then or_else chunk.original_bytes 0
      - or_else chunk.retained_bytes (utf8_byte_length chunk.chunk_data)
    else 0

pub data ConnexinPollResetReason : Type 0 where
  stale_cursor cursor_ahead truncated_output : ConnexinPollResetReason

pub record ConnexinPoll : Type 0 where
  pub session_id : Text
  pub chunks : List ConnexinOutputChunk
  pub next_seq : ℕ
  pub reset : Bool
  pub reset_reason : Option ConnexinPollResetReason
  pub snapshot : Option Text
  pub snapshot_bytes : Option ℕ
  pub snapshot_seq : Option ℕ
  pub dropped_before_seq : Option ℕ
  pub truncated_bytes : Option ℕ
  pub exited : Bool
  pub exit_code : Option ℕ

abbrev pub first_seq : List ConnexinOutputChunk → Option ℕ
first_seq [] = none
first_seq (chunk ∷ rest) = some chunk.seq

-- `Math.max(0, firstSeq - 1)`, or `undefined`.
abbrev pub dropped_before : Option ℕ → Option ℕ
dropped_before none = none
dropped_before (some first) = some (first - 1)

abbrev pub total_truncated : List ConnexinOutputChunk → ℕ
total_truncated [] = 0
total_truncated (chunk ∷ rest) = chunk_truncated_bytes chunk + total_truncated rest

unfoldable pub snapshot_poll : ConnexinSession → ConnexinPollResetReason → Option ℕ → ConnexinPoll
snapshot_poll session reset_reason first = record {
  session_id = session.id;
  chunks = [];
  next_seq = session.next_output_seq - 1;
  reset = true;
  reset_reason = some reset_reason;
  snapshot = some (to_string session.scrollback);
  snapshot_bytes = some (byte_length session.scrollback);
  snapshot_seq = some (session.next_output_seq - 1);
  dropped_before_seq = dropped_before first;
  truncated_bytes = none;
  exited = session.exited;
  exit_code = session.exit_code;
}

-- `firstSeq !== undefined && afterSeq < firstSeq - 1`.
abbrev pub is_stale : Option ℕ → ℕ → Bool
is_stale none after_seq = false
is_stale (some first) after_seq = ltb (after_seq + 1) first

abbrev pub newer : ℕ → List ConnexinOutputChunk → List ConnexinOutputChunk
newer after_seq = filter (λ chunk. ltb after_seq chunk.seq)

-- `pollSession` once the session is found and its activity recorded.
unfoldable pub poll_output : ConnexinSession → ℕ → ConnexinPoll
unfolding snapshot_poll chunk_truncated_bytes
poll_output session after_seq =
    let first = first_seq session.output_chunks in
    let last = session.next_output_seq - 1 in
    if is_stale first after_seq
    then snapshot_poll session stale_cursor first
    else if ltb last after_seq
    then snapshot_poll session cursor_ahead first
    else (let chunks = newer after_seq session.output_chunks in
        let truncated_bytes = total_truncated chunks in
        let reset = ltb 0 truncated_bytes in
        record {
          session_id = session.id;
          chunks = chunks;
          next_seq = last;
          reset = reset;
          reset_reason = if reset then some truncated_output else none;
          snapshot = none;
          snapshot_bytes = none;
          snapshot_seq = none;
          dropped_before_seq = dropped_before first;
          truncated_bytes = if reset then some truncated_bytes else none;
          exited = session.exited;
          exit_code = session.exit_code;
        })

-- The `onData` listener, after it has recorded the activity.
unfoldable pub receive_output : ℕ → ConnexinSession → Text → ConnexinSession
unfolding append_output_chunk
receive_output limit session text =
    append_output_chunk limit
      (record session { scrollback = BoundedTextBuffer.append session.scrollback text }) text

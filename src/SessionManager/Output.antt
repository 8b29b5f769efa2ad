-- ===== src/SessionManager/Output.antt =====
-- The output ring of a session (src/server/session-manager.ts, `appendOutputChunk`) against the list
-- of all that the terminal has written.
use connexin.Prelude.{
  ℕ, zero, suc, ◌+◌, ◌-◌, ◌≤◌, ◌<◌, ◌≡◌, refl, sym, ap, ap₂, subst, ◌∙◌, ◌⊎◌, inl, inr, ◌||◌, List,
  [], ◌∷◌, ◌++◌, arith, ltb, Bool-cases, ltb-false→le, length, drop, flatten, length-append,
  drop-append, append_assoc, length-drop, drop-drop, ltb-eq-false, flatten-append, append-nil,
  or-false,
}
use connexin.Utf8.{Text, utf8_byte_length, take_last_utf8_bytes}
use connexin.Utf8.Agreement.{take_last-drop_first}
use connexin.BoundedTextBuffer.{BoundedTextBuffer, to_string}
use connexin.BoundedTextBuffer
use connexin.BoundedTextBuffer.Append.{IsValid, Appends, append-Appends}
use connexin.SessionManager.Session.{
  ConnexinOutputChunk, ConnexinSession, max_output_chunks, shift_chunks, output_chunk,
  append_output_chunk, receive_output,
}

abbrev pub data_bytes : List ConnexinOutputChunk → ℕ
data_bytes [] = 0
data_bytes (chunk ∷ rest) = utf8_byte_length chunk.chunk_data + data_bytes rest

data_bytes-append :
    (xs ys : List ConnexinOutputChunk) → data_bytes (xs ++ ys) ≡ data_bytes xs + data_bytes ys
data_bytes-append [] ys = omega arith
data_bytes-append (x ∷ xs) ys = omega (arith, data_bytes-append xs ys)

-- What a run of the shifting loop leaves.
record Shifted (limit : ℕ) (xs ys : List ConnexinOutputChunk) (bytes : ℕ) : Type 0 where
  gone : ℕ
  fewer : gone ≤ length xs
  left : ys ≡ drop gone xs
  counted : bytes ≡ data_bytes ys
  within : bytes ≤ limit
  few : length ys ≤ max_output_chunks

shift_chunks-Shifted :
    (limit : ℕ) (xs : List ConnexinOutputChunk) (bytes : ℕ)
    → bytes ≡ data_bytes xs
    → Shifted limit xs (shift_chunks limit xs bytes).0 (shift_chunks limit xs bytes).1
unfolding shift_chunks
shift_chunks-Shifted limit [] bytes h = record {
  gone = 0;
  fewer = omega arith;
  left = refl;
  counted = h;
  within = omega arith;
  few = omega arith;
}
shift_chunks-Shifted limit (x ∷ xs) bytes h =
    elim (Bool-cases (ltb limit bytes || ltb max_output_chunks (length (x ∷ xs)))) [
      | inl full ↦
          let s =
            shift_chunks-Shifted limit xs (bytes - utf8_byte_length x.chunk_data) (omega arith) in
          rw (full) (record {
            gone = suc s.gone;
            fewer = omega (arith, s.fewer);
            left = s.left;
            counted = s.counted;
            within = s.within;
            few = s.few;
          })
      | inr fits ↦ rw (fits) (record {
        gone = 0;
        fewer = omega arith;
        left = refl;
        counted = h;
        within = ltb-false→le _ _ (or-false fits).0;
        few = ltb-false→le _ _ (or-false fits).1;
      })
    ]

-- The newest chunk is never shifted off if it alone is within the limit.
shift_chunks_keeps_last :
    (limit : ℕ) (xs : List ConnexinOutputChunk) (x : ConnexinOutputChunk) (bytes : ℕ)
    → bytes ≡ data_bytes (xs ++ x ∷ [])
    → utf8_byte_length x.chunk_data ≤ limit
    → 0 < length (shift_chunks limit (xs ++ x ∷ []) bytes).0
unfolding shift_chunks
shift_chunks_keeps_last limit [] x bytes h small =
    rw (ltb-eq-false limit bytes (omega arith)) (omega arith)
shift_chunks_keeps_last limit (y ∷ ys) x bytes h small =
    elim (Bool-cases (ltb limit bytes || ltb max_output_chunks (length (y ∷ ys ++ x ∷ [])))) [
      | inl full ↦ rw (full) (
          shift_chunks_keeps_last limit ys x (bytes - utf8_byte_length y.chunk_data) (omega arith)
            small)
      | inr fits ↦ rw (fits) (omega arith)
    ]

-- The chunks of consecutive writes, numbered from `seq`.
unfoldable pub chunks_of : ℕ → ℕ → List Text → List ConnexinOutputChunk
chunks_of limit seq [] = []
chunks_of limit seq (w ∷ ws) = output_chunk seq w limit ∷ chunks_of limit (suc seq) ws

chunks_of-append :
    (limit seq : ℕ) (ws : List Text) (w : Text)
    → chunks_of limit seq (ws ++ w ∷ [])
      ≡ chunks_of limit seq ws ++ output_chunk (seq + length ws) w limit ∷ []
unfolding chunks_of
chunks_of-append limit seq [] w = let same : seq + 0 ≡ seq = omega arith in rw (same)
chunks_of-append limit seq (v ∷ ws) w =
    let same : seq + suc (length ws) ≡ suc seq + length ws = omega arith in
    rw (same) (ap (◌∷◌ (output_chunk seq v limit)) (chunks_of-append limit (suc seq) ws w))

chunks_of-drop :
    (limit seq n : ℕ) (ws : List Text)
    → drop n (chunks_of limit seq ws) ≡ chunks_of limit (seq + n) (drop n ws)
unfolding chunks_of
chunks_of-drop limit seq zero ws = let same : seq + 0 ≡ seq = omega arith in rw (same)
chunks_of-drop limit seq (suc n) [] = refl
chunks_of-drop limit seq (suc n) (w ∷ ws) =
    let same : seq + suc n ≡ suc seq + n = omega arith in
    rw (same) (chunks_of-drop limit (suc seq) n ws)

length-chunks_of : (limit seq : ℕ) (ws : List Text) → length (chunks_of limit seq ws) ≡ length ws
unfolding chunks_of
length-chunks_of limit seq [] = refl
length-chunks_of limit seq (w ∷ ws) = ap suc (length-chunks_of limit (suc seq) ws)

-- `writes` are the non-empty texts that the session has received, oldest first.
pub record HasReceived (limit : ℕ) (writes : List Text) (session : ConnexinSession) : Type 0 where
  pub gone : ℕ
  pub fewer : gone ≤ length writes
  pub chunks : session.output_chunks ≡ chunks_of limit (suc gone) (drop gone writes)
  pub numbered : session.next_output_seq ≡ suc (length writes)
  pub counted : session.output_chunk_bytes ≡ data_bytes session.output_chunks
  pub within : session.output_chunk_bytes ≤ limit
  pub few : length session.output_chunks ≤ max_output_chunks
  pub newest : (writes ≡ []) ⊎ (gone < length writes)
  pub scrollback_limit : session.scrollback.max_bytes ≡ limit
  pub scrolled : Text
  pub scrollback_suffix : flatten writes ≡ scrolled ++ to_string session.scrollback
  pub scrollback_valid : IsValid session.scrollback

abbrev pub remember : List Text → Text → List Text
remember writes [] = writes
remember writes (unit ∷ rest) = writes ++ (unit ∷ rest) ∷ []

module _ (limit : ℕ) (writes : List Text) (session : ConnexinSession)
    (r : HasReceived limit writes session) (w : Text) where
  later : List Text
  later = writes ++ w ∷ []

  all_chunks : List ConnexinOutputChunk
  all_chunks = session.output_chunks ++ output_chunk session.next_output_seq w limit ∷ []

  all_chunks_of : all_chunks ≡ chunks_of limit (suc r.gone) (drop r.gone later)
  unfolding all_chunks later
  all_chunks_of =
      let place : session.next_output_seq ≡ suc r.gone + length (drop r.gone writes) =
        omega (arith, r.numbered, r.fewer, length-drop r.gone writes) in
      ap₂ (λ l n. l ++ output_chunk n w limit ∷ []) r.chunks place
      ∙ sym (chunks_of-append limit (suc r.gone) (drop r.gone writes) w)
      ∙ ap (chunks_of limit (suc r.gone)) (sym (drop-append r.gone writes (w ∷ []) r.fewer))

  all_bytes :
      session.output_chunk_bytes + (take_last_utf8_bytes w limit).bytes ≡ data_bytes all_chunks
  unfolding all_chunks
  all_bytes =
      let (_, counted, _) = take_last-drop_first w limit in
      omega (
        arith,
        r.counted,
        counted,
        data_bytes-append session.output_chunks (output_chunk session.next_output_seq w limit ∷ []),
      )

  bytes_after : ℕ
  bytes_after = session.output_chunk_bytes + (take_last_utf8_bytes w limit).bytes

  shifted :
      Shifted limit all_chunks
        (shift_chunks limit all_chunks bytes_after).0
        (shift_chunks limit all_chunks bytes_after).1
  unfolding bytes_after
  shifted = shift_chunks-Shifted limit all_chunks bytes_after all_bytes

  one_left : 0 < length (shift_chunks limit all_chunks bytes_after).0
  unfolding bytes_after all_chunks
  one_left =
      let (_, counted, within) = take_last-drop_first w limit in
      shift_chunks_keeps_last limit session.output_chunks
        (output_chunk session.next_output_seq w limit) bytes_after all_bytes (omega arith)

  gone_after : ℕ
  gone_after = r.gone + shifted.gone

  chunks_after :
      (shift_chunks limit all_chunks bytes_after).0
      ≡ chunks_of limit (suc gone_after) (drop gone_after later)
  unfolding gone_after
  chunks_after =
      shifted.left
      ∙ ap (drop shifted.gone) all_chunks_of
      ∙ chunks_of-drop limit (suc r.gone) shifted.gone (drop r.gone later)
      ∙ ap (chunks_of limit (suc r.gone + shifted.gone)) (drop-drop r.gone shifted.gone later)
      ∙ (let place : suc r.gone + shifted.gone ≡ suc (r.gone + shifted.gone) = omega arith in
          ap (λ n. chunks_of limit n (drop (r.gone + shifted.gone) later)) place)

  still_fewer : gone_after < length later
  unfolding gone_after
  still_fewer = omega (
    arith,
    one_left,
    ap length chunks_after,
    length-chunks_of limit (suc gone_after) (drop gone_after later),
    length-drop gone_after later,
  )

  scrollback_after : Appends session.scrollback w (BoundedTextBuffer.append session.scrollback w)
  scrollback_after = append-Appends session.scrollback w r.scrollback_valid

  scrollback_joined :
      flatten later
      ≡ (r.scrolled ++ scrollback_after.gone)
        ++ to_string (BoundedTextBuffer.append session.scrollback w)
  unfolding later
  scrollback_joined =
      let now = to_string (BoundedTextBuffer.append session.scrollback w) in
      flatten-append writes (w ∷ [])
      ∙ ap₂ ◌++◌ r.scrollback_suffix (append-nil w)
      ∙ append_assoc r.scrolled (to_string session.scrollback) w
      ∙ ap (◌++◌ r.scrolled) scrollback_after.suffix
      ∙ sym (append_assoc r.scrolled scrollback_after.gone now)

receive_output_empty :
    (limit : ℕ) (session : ConnexinSession) → receive_output limit session [] ≡ session
unfolding receive_output append_output_chunk BoundedTextBuffer.append
receive_output_empty limit session = refl

-- The listener keeps the ring the true tail of what was written: the chunks are those of the
-- newest writes, numbered without a gap up to the last, within both limits, the newest among
-- them; and the scrollback is a suffix of all output.
pub receive_output-HasReceived :
    (limit : ℕ) (writes : List Text) (session : ConnexinSession) (text : Text)
    → HasReceived limit writes session
    → HasReceived limit (remember writes text) (receive_output limit session text)
unfolding receive_output append_output_chunk
receive_output-HasReceived limit writes session [] r =
    subst (HasReceived limit writes) (sym (receive_output_empty limit session)) r
receive_output-HasReceived limit writes session (unit ∷ rest) r =
    let w = unit ∷ rest in
    let s = shifted limit writes session r w in
    let b = scrollback_after limit writes session r w in
    unfold all_chunks bytes_after later in
    record {
      gone = gone_after limit writes session r w;
      fewer = omega (arith, still_fewer limit writes session r w);
      chunks = chunks_after limit writes session r w;
      numbered = omega (arith, r.numbered, length-append writes (w ∷ []));
      counted = s.counted;
      within = s.within;
      few = s.few;
      newest = inr (still_fewer limit writes session r w);
      scrollback_limit = b.limit ∙ r.scrollback_limit;
      scrolled = r.scrolled ++ b.gone;
      scrollback_suffix = scrollback_joined limit writes session r w;
      scrollback_valid = b.valid;
    }

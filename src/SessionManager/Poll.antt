-- ===== src/SessionManager/Poll.antt =====
-- What a client sees that polls a session (src/server/session-manager.ts, `pollSession`).
use connexin.Prelude.{
  ℕ, zero, suc, ◌+◌, ◌-◌, ◌≤◌, ◌<◌, ◌≡◌, refl, sym, ap, ap₂, ◌∙◌, ◌⊎◌, inl, inr, Bool, true, false,
  List, [], ◌∷◌, ◌++◌, none, some, map, arith, ltb, Bool-cases, ltb→lt, ltb-false→le, lt→ltb,
  length, drop, flatten, length-drop, ltb-eq-false, drop-drop,
}
use connexin.Utf8.{Text, utf8_byte_length, take_last_utf8_bytes}
use connexin.Utf8.Agreement.{take_last-drop_first, take_last_fits}
use connexin.BoundedTextBuffer.{to_string}
use connexin.SessionManager.Session.{
  ConnexinOutputChunk, ConnexinSession, ConnexinPoll, output_chunk, chunk_truncated_bytes,
  first_seq, is_stale, newer, total_truncated, snapshot_poll, poll_output,
}
use connexin.SessionManager.Output.{HasReceived, chunks_of}

all_newer :
    (limit seq after : ℕ) (ws : List Text)
    → after < seq
    → newer after (chunks_of limit seq ws) ≡ chunks_of limit seq ws
unfolding chunks_of
all_newer limit seq after [] h = refl
all_newer limit seq after (w ∷ ws) h =
    rw (lt→ltb after seq h)
      (ap (◌∷◌ (output_chunk seq w limit)) (all_newer limit (suc seq) after ws (omega arith)))

-- The chunks after a cursor are those of the writes after it.
newer-chunks_of :
    (limit k after : ℕ) (ws : List Text)
    → k ≤ after
    → newer after (chunks_of limit (suc k) ws) ≡ chunks_of limit (suc after) (drop (after - k) ws)
unfolding chunks_of
newer-chunks_of limit k after [] h = none_newer limit after (after - k)
  where
    none_newer : (limit after n : ℕ) → [] ≡ chunks_of limit (suc after) (drop n [])
    none_newer limit after zero = refl
    none_newer limit after (suc n) = refl
newer-chunks_of limit k after (w ∷ ws) h = elim (Bool-cases (ltb after (suc k))) [
  | inl new ↦
      let same : k ≡ after = omega (arith, ltb→lt _ _ new) in
      let none_before : after - k ≡ 0 = omega arith in
      all_newer limit (suc k) after (w ∷ ws) (omega (arith, ltb→lt _ _ new))
      ∙ ap (λ n. chunks_of limit (suc n) (w ∷ ws)) same
      ∙ ap (λ n. chunks_of limit (suc after) (drop n (w ∷ ws))) (sym none_before)
  | inr old ↦
      let step : after - k ≡ suc (after - suc k) = omega (arith, ltb-false→le _ _ old) in
      rw (old, step) (newer-chunks_of limit (suc k) after ws (ltb-false→le _ _ old))
]

-- A chunk that lost no byte holds the whole write.
whole_chunk :
    (limit seq : ℕ) (w : Text)
    → chunk_truncated_bytes (output_chunk seq w limit) ≡ 0
    → (output_chunk seq w limit).chunk_data ≡ w
unfolding chunk_truncated_bytes
whole_chunk limit seq w h =
    let c = take_last_utf8_bytes w limit in
    let (_, counted, within) = take_last-drop_first w limit in
    elim (Bool-cases (ltb c.bytes (utf8_byte_length w))) [
      | inl cut ↦
          let lost : utf8_byte_length w - c.bytes ≡ 0 = rw (cut) at h in
          absurd (omega (arith, ltb→lt _ _ cut))
      | inr kept ↦
          ap (λ (x : _). x.text) (take_last_fits w limit (omega (arith, ltb-false→le _ _ kept)))
    ]

whole_chunks :
    (limit seq : ℕ) (ws : List Text)
    → total_truncated (chunks_of limit seq ws) ≡ 0
    → flatten (map (λ (c : ConnexinOutputChunk). c.chunk_data) (chunks_of limit seq ws))
      ≡ flatten ws
unfolding chunks_of
whole_chunks limit seq [] h = refl
whole_chunks limit seq (w ∷ ws) h =
    ap₂ ◌++◌ (whole_chunk limit seq w (omega arith)) (whole_chunks limit (suc seq) ws (omega arith))

first_seq-chunks_of :
    (limit seq : ℕ) (ws : List Text) → 0 < length ws → first_seq (chunks_of limit seq ws) ≡ some seq
unfolding chunks_of
first_seq-chunks_of limit seq [] h = absurd (omega arith)
first_seq-chunks_of limit seq (w ∷ ws) h = refl

stale_false :
    (limit seq after : ℕ) (ws : List Text)
    → seq ≤ after + 1
    → is_stale (first_seq (chunks_of limit seq ws)) after ≡ false
unfolding chunks_of
stale_false limit seq after [] h = refl
stale_false limit seq after (w ∷ ws) h = ltb-eq-false _ _ h

module _ (limit : ℕ) (writes : List Text) (session : ConnexinSession)
    (r : HasReceived limit writes session) (after : ℕ) where
  is_stale_lem : (ltb after r.gone) ≡ is_stale (first_seq session.output_chunks) after
  is_stale_lem = elim (Bool-cases (ltb after r.gone)) [
    | inr held ↦
        held
        ∙ sym (
            ap (λ l. is_stale (first_seq l) after) r.chunks
            ∙ stale_false limit (suc r.gone) after (drop r.gone writes)
                (omega (arith, ltb-false→le _ _ held)))
    | inl lost ↦
        let some_left : r.gone < length writes = elim r.newest [
          | inl empty ↦ absurd (omega (arith, ltb→lt _ _ lost, r.fewer, ap length empty))
          | inr kept ↦ kept
        ] in
        let first =
          ap first_seq r.chunks
          ∙ first_seq-chunks_of limit (suc r.gone) (drop r.gone writes)
              (omega (arith, length-drop r.gone writes)) in
        rw (first) (lost ∙ sym (lt→ltb _ _ (omega (arith, ltb→lt _ _ lost))))
  ]

  -- A cursor within what the ring holds gets all chunks after it, numbered without a gap.
  abbrev pub Continues : ConnexinPoll → Type 0
  Continues p =
      (r.gone ≤ after)
      × (after ≤ length writes)
      × (p.chunks ≡ chunks_of limit (suc after) (drop after writes))
      × (p.snapshot ≡ none)

  -- Any other cursor gets the scrollback, a suffix of all output, in place of chunks.
  abbrev pub Restarts : ConnexinPoll → Type 0
  Restarts p =
      ((after < r.gone) ⊎ (length writes < after))
      × (p.chunks ≡ [])
      × (p.reset ≡ true)
      × (p.snapshot ≡ some (to_string session.scrollback))
      × (flatten writes ≡ r.scrolled ++ to_string session.scrollback)

  poll-Continues : r.gone ≤ after → after ≤ length writes → Continues (poll_output session after)
  unfolding poll_output
  poll-Continues held known =
      let fresh : is_stale (first_seq session.output_chunks) after ≡ false =
        sym is_stale_lem ∙ ltb-eq-false _ _ held in
      let not_ahead : ltb (session.next_output_seq - 1) after ≡ false =
        ltb-eq-false _ _ (omega (arith, r.numbered)) in
      let chunks : newer after session.output_chunks
          ≡ chunks_of limit (suc after) (drop after writes) =
        ap (newer after) r.chunks
        ∙ newer-chunks_of limit r.gone after (drop r.gone writes) held
        ∙ ap (chunks_of limit (suc after)) (drop-drop r.gone (after - r.gone) writes)
        ∙ (let place : r.gone + (after - r.gone) ≡ after = omega arith in
            ap (λ n. chunks_of limit (suc after) (drop n writes)) place) in
      rw (fresh, not_ahead) (held, known, chunks, refl)

  poll_whole :
      r.gone ≤ after
      → after ≤ length writes
      → (poll_output session after).reset ≡ false
      → total_truncated (poll_output session after).chunks ≡ 0
  unfolding poll_output
  poll_whole held known e =
      let fresh : is_stale (first_seq session.output_chunks) after ≡ false =
        sym is_stale_lem ∙ ltb-eq-false _ _ held in
      let not_ahead : ltb (session.next_output_seq - 1) after ≡ false =
        ltb-eq-false _ _ (omega (arith, r.numbered)) in
      let whole : ltb 0 (total_truncated (newer after session.output_chunks)) ≡ false =
        rw (fresh, not_ahead) at e in
      rw (fresh, not_ahead) (omega (arith, ltb-false→le _ _ whole))

  poll-Restarts : (after < r.gone) ⊎ (length writes < after) → Restarts (poll_output session after)
  unfolding poll_output snapshot_poll
  poll-Restarts (inl lost) =
      let stale = sym is_stale_lem ∙ lt→ltb _ _ lost in
      rw (stale) (inl lost, refl, refl, refl, r.scrollback_suffix)
  poll-Restarts (inr beyond) =
      elim (Bool-cases (is_stale (first_seq session.output_chunks) after)) [
        | inl stale ↦ rw (stale) (inr beyond, refl, refl, refl, r.scrollback_suffix)
        | inr fresh ↦
            let ahead : ltb (session.next_output_seq - 1) after ≡ true =
              lt→ltb _ _ (omega (arith, r.numbered)) in
            rw (fresh, ahead) (inr beyond, refl, refl, refl, r.scrollback_suffix)
      ]

  poll_next_seq : (poll_output session after).next_seq ≡ length writes
  unfolding poll_output snapshot_poll
  poll_next_seq = ground (arith, r.numbered)

-- A poll of a session that has received `writes` moves the cursor to the last of them. A cursor
-- that the ring still covers gets the chunks of exactly the writes after it; every other cursor
-- is told to reset and gets the scrollback, a suffix of all output.
pub poll_output_cases :
    (limit : ℕ) (writes : List Text) (session : ConnexinSession) (after : ℕ)
    (r : HasReceived limit writes session)
    → let p = poll_output session after in
      (p.next_seq ≡ length writes)
      × (Continues limit writes session r after p ⊎ Restarts limit writes session r after p)
poll_output_cases limit writes session after r = (
  poll_next_seq limit writes session r after,
  elim (Bool-cases (ltb after r.gone)) [
    | inl lost ↦ inr (poll-Restarts limit writes session r after (inl (ltb→lt _ _ lost)))
    | inr held ↦ elim (Bool-cases (ltb (length writes) after)) [
      | inl beyond ↦ inr (poll-Restarts limit writes session r after (inr (ltb→lt _ _ beyond)))
      | inr known ↦ inl (
          poll-Continues limit writes session r after (ltb-false→le _ _ held)
            (ltb-false→le _ _ known))
    ]
  ],
)

-- Unless the poll says `reset`, the data of its chunks is the whole of what was written after the
-- cursor, and the next cursor stands behind it, in every session that has received `writes`.
pub poll_output_lossless :
    (limit : ℕ) (writes : List Text) (session : ConnexinSession) (after : ℕ)
    → HasReceived limit writes session
    → (poll_output session after).reset ≡ false
    → let p = poll_output session after in
      (flatten (map (λ (c : ConnexinOutputChunk). c.chunk_data) p.chunks)
        ≡ flatten (drop after writes))
      × (after ≤ p.next_seq)
      × (p.next_seq ≡ length writes)
poll_output_lossless limit writes session after r e =
    let (next, either) = poll_output_cases limit writes session after r in
    elim either [
      | inr (_, _, reset, _, _) ↦ absurd (not_both e reset)
      | inl (held, known, chunks, _) ↦
          let whole = poll_whole limit writes session r after held known e in
          (
            ap (λ l. flatten (map (λ (c : ConnexinOutputChunk). c.chunk_data) l)) chunks
                ∙ whole_chunks limit (suc after) (drop after writes)
                    (sym (ap total_truncated chunks) ∙ whole),
            omega arith,
            next,
          )
    ]
  where
    not_both : {b : Bool} → b ≡ false → b ≡ true → ⊥
    not_both h k = cc

-- ===== src/AuditLog/RateLimit.antt =====
-- The limiter of src/server/audit-log.ts within a window, and when a window closes.
use connexin.Prelude.{
  ℕ, suc, ◌+◌, ◌-◌, ◌≤◌, ◌<◌, ◌≡◌, refl, ◌∙◌, List, [], ◌∷◌, ◌++◌, none, inl, inr, arith, ltb, ◌==◌,
  Bool-cases, length, All, min, ==_iff, ltb→lt, ltb-false→le, leb-eq-false, le→leb, lt→ltb,
}
use connexin.AuditLog.{
  RateLimiter, Written, detailed_record, suppression_started, suppression_summary, flush_summary,
  count_record, limiter_record,
}

-- Calls of `record` at the given times, with all that they write.
pub limiter_run : List ℕ → RateLimiter → RateLimiter × List Written
limiter_run [] l = (l, [])
limiter_run (now ∷ times) l =
    let (next, written) = limiter_record now l in
    let (last, more) = limiter_run times next in (last, written ++ more)

pub count_detailed : List Written → ℕ
count_detailed [] = 0
count_detailed (detailed_record ∷ rest) = suc (count_detailed rest)
count_detailed (suppression_started ∷ rest) = count_detailed rest
count_detailed (suppression_summary n ∷ rest) = count_detailed rest

pub count_started : List Written → ℕ
count_started [] = 0
count_started (detailed_record ∷ rest) = count_started rest
count_started (suppression_started ∷ rest) = suc (count_started rest)
count_started (suppression_summary n ∷ rest) = count_started rest

-- One call within the window either writes one detailed record or suppresses one.
record_within :
    (now : ℕ) (l : RateLimiter)
    → now < l.window_started_at + l.window_ms
    → limiter_record now l ≡ count_record now l
unfolding limiter_record
record_within now l h = rw (leb-eq-false _ _ h)

count_detailed-append :
    (xs ys : List Written) → count_detailed (xs ++ ys) ≡ count_detailed xs + count_detailed ys
unfolding count_detailed
count_detailed-append [] ys = omega arith
count_detailed-append (detailed_record ∷ xs) ys = omega (arith, count_detailed-append xs ys)
count_detailed-append (suppression_started ∷ xs) ys = count_detailed-append xs ys
count_detailed-append (suppression_summary n ∷ xs) ys = count_detailed-append xs ys

count_started-append :
    (xs ys : List Written) → count_started (xs ++ ys) ≡ count_started xs + count_started ys
unfolding count_started
count_started-append [] ys = omega arith
count_started-append (detailed_record ∷ xs) ys = count_started-append xs ys
count_started-append (suppression_started ∷ xs) ys = omega (arith, count_started-append xs ys)
count_started-append (suppression_summary n ∷ xs) ys = count_started-append xs ys

-- What a number of calls in one window writes and counts.
record Bounded (n : ℕ) (l m : RateLimiter) (written : List Written) : Type 0 where
  detailed : count_detailed written ≡ min n (l.max_events - l.event_count)
  suppressed : m.suppressed_count ≡ l.suppressed_count + (n - (l.max_events - l.event_count))
  started : count_started written + min 1 l.suppressed_count ≡ min 1 m.suppressed_count
  counted : m.event_count ≡ l.event_count + count_detailed written
  same_window :
      (m.window_started_at ≡ l.window_started_at)
      × (m.window_ms ≡ l.window_ms)
      × (m.max_events ≡ l.max_events)

count_record-Bounded :
    (now : ℕ) (l : RateLimiter) → Bounded 1 l (count_record now l).0 (count_record now l).1
unfolding count_record count_detailed count_started
count_record-Bounded now l = elim (Bool-cases (ltb l.event_count l.max_events)) [
  | inl room ↦ rw (room) (record {
    detailed = omega (arith, ltb→lt _ _ room);
    suppressed = omega (arith, ltb→lt _ _ room);
    started = omega arith;
    counted = omega arith;
    same_window = (refl, refl, refl);
  })
  | inr full ↦ elim (Bool-cases ((l.suppressed_count + 1) == 1)) [
    | inl first ↦
        let zero_before : l.suppressed_count ≡ 0 = omega (arith, (==_iff _ 1).0 first) in
        rw (full, first)
          (record {
            detailed = omega (arith, ltb-false→le _ _ full);
            suppressed = omega (arith, ltb-false→le _ _ full);
            started = omega arith;
            counted = omega arith;
            same_window = (refl, refl, refl);
          })
    | inr later ↦
        let some_before : 0 < l.suppressed_count = ground arith in
        rw (full, later)
          (record {
            detailed = omega (arith, ltb-false→le _ _ full);
            suppressed = omega (arith, ltb-false→le _ _ full);
            started = omega arith;
            counted = omega arith;
            same_window = (refl, refl, refl);
          })
  ]
]

Bounded-join :
    {n : ℕ} {l m k : RateLimiter} {written more : List Written}
    → l.event_count ≤ l.max_events
    → Bounded 1 l m written
    → Bounded n m k more
    → Bounded (suc n) l k (written ++ more)
Bounded-join {written} {more} h one rest =
    let (start, ms, most) = one.same_window in
    let (start', ms', most') = rest.same_window in
    let split = count_detailed-append written more in
    record {
      detailed = omega (arith, one.detailed, rest.detailed, one.counted);
      suppressed = omega (arith, one.detailed, one.suppressed, rest.suppressed, one.counted);
      started = omega (arith, count_started-append written more, one.started, rest.started);
      counted = omega (arith, one.counted, rest.counted);
      same_window = (start' ∙ start, ms' ∙ ms, most' ∙ most);
    }

abbrev pub IsWithin : RateLimiter → ℕ → Type 0
IsWithin l now = now < l.window_started_at + l.window_ms

still-IsWithin :
    (l m : RateLimiter) (times : List ℕ)
    → m.window_started_at ≡ l.window_started_at
    → m.window_ms ≡ l.window_ms
    → All (IsWithin l) times
    → All (IsWithin m) times
still-IsWithin l m [] a b h = tt
still-IsWithin l m (t ∷ times) a b h = (omega arith, still-IsWithin l m times a b h.1)

limiter_run-Bounded :
    (times : List ℕ) (l : RateLimiter)
    → l.event_count ≤ l.max_events
    → All (IsWithin l) times
    → Bounded (length times) l (limiter_run times l).0 (limiter_run times l).1
unfolding limiter_run count_detailed count_started
limiter_run-Bounded [] l h w = record {
  detailed = omega arith;
  suppressed = omega arith;
  started = omega arith;
  counted = omega arith;
  same_window = (refl, refl, refl);
}
limiter_run-Bounded (now ∷ times) l h w =
    let one = count_record-Bounded now l in
    let (m, written) = count_record now l in
    let rest =
      limiter_run-Bounded times m (omega (arith, one.counted, one.detailed, one.same_window))
        (still-IsWithin l m times one.same_window.0 one.same_window.1 w.1) in
    rw (record_within now l w.0) (Bounded-join h one rest)

-- Calls of `record` in one window, from a state that has suppressed nothing yet and written at
-- most `maxEvents`, write a detailed record each until `maxEvents` are written and suppress all
-- later ones; if any are suppressed, this is announced exactly once.
pub limiter_run_window :
    (times : List ℕ) (l : RateLimiter)
    → l.event_count ≤ l.max_events
    → l.suppressed_count ≡ 0
    → All (IsWithin l) times
    → let (m, written) = limiter_run times l in
      let room = l.max_events - l.event_count in
      (count_detailed written ≡ min (length times) room)
      × (m.suppressed_count ≡ length times - room)
      × (count_started written ≡ min 1 (length times - room))
limiter_run_window times l h none_yet within =
    let b = limiter_run-Bounded times l h within in
    (b.detailed, omega (arith, b.suppressed), omega (arith, b.started, b.suppressed))

-- Where records were suppressed and the timer has reported them, the next call after the end of
-- the window reports the same number again.
pub summary_repeated :
    (l : RateLimiter) (now : ℕ)
    → 0 < l.suppressed_count
    → l.window_started_at + l.window_ms ≤ now
    → let (fired, at_close) = flush_summary l in
      (at_close ≡ suppression_summary l.suppressed_count ∷ [])
      × ((more : List Written) × ((limiter_record now fired).1
            ≡ suppression_summary l.suppressed_count ∷ more))
unfolding flush_summary limiter_record
summary_repeated l now some_lost closed =
    let reopened : RateLimiter = record l {
      summary_timer = none;
      window_started_at = now;
      event_count = 0;
      suppressed_count = 0;
    } in
    (
      rw (lt→ltb _ _ some_lost),
      ((count_record now reopened).1, rw (le→leb _ _ closed, lt→ltb _ _ some_lost)),
    )

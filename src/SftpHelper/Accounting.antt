-- ===== src/SftpHelper/Accounting.antt =====
-- Every request of src/server/sftp-helper.ts is settled once.
use connexin.Prelude.{
  ℕ, suc, ◌+◌, ◌*◌, ◌≤◌, ◌<◌, ◌≡◌, refl, sym, ap, subst, ◌∙◌, Bool, true, false, not, ◌&&◌, ◌||◌,
  List, [], ◌∷◌, Option, none, some, inl, inr, arith, ◌==◌, ==_iff, ltb, leb, leb-false→lt,
  if◌then◌else◌, Bool-cases, codes, length, length-append, or-false,
}
use connexin.Utf8.{Text}
use connexin.Numbers.{JsNumber, natural, minus_suc, no_safe_integer, is_safe_integer}
use connexin.SftpHelper.{
  Settlement, ChildSftpHelper, new_helper, enqueue, Requested, turned_away, queued, request, has_id,
  delete_id, settle, reject_pending, dispose, garbage, null_value, message, settle_number, answer,
  handle_line, on_close, on_stream_error, on_stderr, HelperEvent, requested, line_read,
  write_failed, aborted, stderr_read, child_closed, child_failed, stream_failed, disposed_of,
  on_event, on_events,
}
use connexin.SftpHelper.Occurrences.{
  occurrences, ids_of, occurrences-append, occurrences-delete_id, has_id-occurrences, delete_id-nil,
  length-delete_id, ids_of-refused,
}

-- How often the promise of a request was settled.
abbrev pub settlements : ℕ → ChildSftpHelper → ℕ
settlements id h = occurrences id (ids_of h.settled)

-- One for a number that was given out.
abbrev due : ℕ → ℕ → ℕ
due id next = if ltb 0 id && ltb id next then 1 else 0

-- A number given out waits once or was settled once, no other does; what waits is within the
-- limit, nothing waits once the helper is disposed of, and the count of bytes is capped.
pub record IsAccounted (h : ChildSftpHelper) : Type 0 where
  pub positive : 0 < h.next_id
  pub once : (id : ℕ) → occurrences id h.pending + settlements id h ≡ due id h.next_id
  pub within : length h.pending ≤ h.max_pending
  pub closed : h.disposed ≡ true → h.pending ≡ []
  pub capped : h.stderr_bytes ≤ 64 * 1024

new_helper-IsAccounted : (max_pending : ℕ) → IsAccounted (new_helper max_pending)
new_helper-IsAccounted max_pending = record {
  positive = omega arith;
  once = λ id. ground arith;
  within = omega arith;
  closed = λ e. refl;
  capped = omega arith;
}

reject_pending-IsAccounted :
    (error : Text) (h : ChildSftpHelper) → IsAccounted h → IsAccounted (reject_pending error h)
unfolding reject_pending
reject_pending-IsAccounted error h a = record {
  positive = a.positive;
  once = λ id. omega (arith, ids_of-refused error h.pending h.settled id, a.once id);
  within = omega arith;
  closed = λ e. refl;
  capped = a.capped;
}

-- Marking the helper as disposed, with nothing left that waits.
disposed-IsAccounted :
    (h : ChildSftpHelper)
    → IsAccounted h
    → h.pending ≡ []
    → IsAccounted (record h { disposed = true })
disposed-IsAccounted h a e = record {
  positive = a.positive;
  once = a.once;
  within = a.within;
  closed = λ d. e;
  capped = a.capped;
}

on_close-IsAccounted : (h : ChildSftpHelper) → IsAccounted h → IsAccounted (on_close h)
unfolding on_close reject_pending
on_close-IsAccounted h a =
    disposed-IsAccounted (reject_pending (codes "helper_closed") h)
      (reject_pending-IsAccounted (codes "helper_closed") h a) refl

if-IsAccounted :
    (b : Bool) (h k : ChildSftpHelper)
    → IsAccounted h
    → IsAccounted k
    → IsAccounted (if b then h else k)
if-IsAccounted true h k a c = a
if-IsAccounted false h k a c = c

dispose-IsAccounted : (h : ChildSftpHelper) → IsAccounted h → IsAccounted (dispose h)
unfolding dispose reject_pending on_close
dispose-IsAccounted h a =
    let shut = on_close-IsAccounted h a in
    if-IsAccounted h.disposed h _ a (record {
      positive = shut.positive;
      once = shut.once;
      within = shut.within;
      closed = shut.closed;
      capped = shut.capped;
    })

enqueue-IsAccounted :
    (body : Text) (h : ChildSftpHelper)
    → IsAccounted h
    → h.disposed ≡ false
    → leb h.max_pending (length h.pending) ≡ false
    → IsAccounted (enqueue body h)
enqueue-IsAccounted body h a live room =
    let fits = leb-false→lt h.max_pending (length h.pending) room in
    record {
      positive = omega arith;
      once = λ id.
          let before = a.once id in
          let added = occurrences-append id h.pending (h.next_id ∷ []) in
          let first = a.positive in ground arith;
      within = omega (arith, length-append h.pending (h.next_id ∷ []));
      closed = λ d. cc;
      capped = a.capped;
    }

request-IsAccounted :
    (writable : Bool) (body : Text) (h : ChildSftpHelper)
    → IsAccounted h
    → IsAccounted (request writable body h).1
unfolding request
request-IsAccounted writable body h a =
    branch (h.disposed || not writable) (turned_away (codes "helper_closed"), h) _ (λ e. a)
      (λ usable.
        branch (leb h.max_pending (length h.pending)) (turned_away (codes "queue_full"), h)
          (queued h.next_id, enqueue body h) (λ e. a)
          (λ room.
            enqueue-IsAccounted body h a (or-false {a = h.disposed} {b = not writable} usable).0
              room))
  where
    branch :
        (b : Bool) (x y : Requested × ChildSftpHelper)
        → (b ≡ true → IsAccounted x.1)
        → (b ≡ false → IsAccounted y.1)
        → IsAccounted (if b then x else y).1
    branch true x y f g = f refl
    branch false x y f g = g refl

due-le : (id next : ℕ) → due id next ≤ 1
due-le id next = ground arith

settled_sum :
    (x id waiting settled due left : ℕ)
    → waiting + settled ≡ due
    → due ≤ 1
    → (x ≡ id → 0 < waiting)
    → left ≡ (if x == id then 0 else waiting)
    → left + (if id == x then suc settled else settled) ≡ due
settled_sum x id waiting settled due left sum most present rest = elim (Bool-cases (x == id)) [
  | inl same ↦
      let equal = (==_iff x id).0 same in
      let some_waits = present equal in let gone : left ≡ 0 = rw (same) at rest in ground arith
  | inr other ↦ let kept : left ≡ waiting = rw (other) at rest in ground arith
]

settled-IsAccounted :
    (id : ℕ) (outcome : Settlement) (h : ChildSftpHelper)
    → IsAccounted h
    → has_id id h.pending ≡ true
    → IsAccounted
        (record h { pending = delete_id id h.pending; settled = (id, outcome) ∷ h.settled })
settled-IsAccounted id outcome h a waits = record {
  positive = a.positive;
  once = λ x.
      settled_sum x id (occurrences x h.pending) (settlements x h) (due x h.next_id) _ (a.once x)
        (due-le x h.next_id)
        (λ same.
          subst (λ y. 0 < occurrences y h.pending) (sym same)
            (has_id-occurrences id h.pending waits))
        (occurrences-delete_id x id h.pending);
  within = omega (arith, length-delete_id id h.pending, a.within);
  closed = λ d. ap (delete_id id) (a.closed d) ∙ delete_id-nil id;
  capped = a.capped;
}

settle-IsAccounted :
    (id : ℕ) (outcome : Settlement) (h : ChildSftpHelper)
    → IsAccounted h
    → IsAccounted (settle id outcome h)
unfolding settle
settle-IsAccounted id outcome h a = elim (Bool-cases (has_id id h.pending)) [
  | inl waits ↦
      subst
        (λ b. IsAccounted (
          if b
          then record h { pending = delete_id id h.pending; settled = (id, outcome) ∷ h.settled }
          else h))
        (sym waits) (settled-IsAccounted id outcome h a waits)
  | inr away ↦
      subst
        (λ b. IsAccounted (
          if b
          then record h { pending = delete_id id h.pending; settled = (id, outcome) ∷ h.settled }
          else h))
        (sym away) a
]

settle_number-IsAccounted :
    (id : JsNumber) (outcome : Settlement) (h : ChildSftpHelper)
    → IsAccounted h
    → IsAccounted (settle_number id outcome h)
settle_number-IsAccounted (natural id) outcome h a = settle-IsAccounted id outcome h a
settle_number-IsAccounted (minus_suc n) outcome h a = a
settle_number-IsAccounted no_safe_integer outcome h a = a

answer-IsAccounted :
    (known : Bool) (id : Option JsNumber) (outcome : Settlement) (h : ChildSftpHelper)
    → IsAccounted h
    → IsAccounted (answer known id outcome h)
answer-IsAccounted known none outcome h a = dispose-IsAccounted h a
answer-IsAccounted known (some id) outcome h a =
    if-IsAccounted (not known || not (is_safe_integer id)) (dispose h) (settle_number id outcome h)
      (dispose-IsAccounted h a) (settle_number-IsAccounted id outcome h a)

on_stderr-IsAccounted :
    (bytes : ℕ) (h : ChildSftpHelper) → IsAccounted h → IsAccounted (on_stderr bytes h)
on_stderr-IsAccounted bytes h a = record {
  positive = a.positive;
  once = a.once;
  within = a.within;
  closed = a.closed;
  capped = omega arith;
}

abbrev IsKept : Option ChildSftpHelper → Type 0
IsKept none = Unit
IsKept (some h) = IsAccounted h

on_event-IsKept :
    (event : HelperEvent) (h : ChildSftpHelper) → IsAccounted h → IsKept (on_event event h)
unfolding on_event handle_line on_stream_error
on_event-IsKept (requested writable body) h a = request-IsAccounted writable body h a
on_event-IsKept (line_read garbage) h a = dispose-IsAccounted h a
on_event-IsKept (line_read null_value) h a = tt
on_event-IsKept (line_read (message version id code payload)) h a = answer-IsAccounted _ id _ h a
on_event-IsKept (write_failed id) h a = settle-IsAccounted id _ h a
on_event-IsKept (aborted id) h a = settle-IsAccounted id _ h a
on_event-IsKept (stderr_read bytes) h a = on_stderr-IsAccounted bytes h a
on_event-IsKept child_closed h a = on_close-IsAccounted h a
on_event-IsKept child_failed h a = reject_pending-IsAccounted _ h a
on_event-IsKept stream_failed h a =
    if-IsAccounted h.disposed h (reject_pending (codes "helper_unavailable") h) a
      (reject_pending-IsAccounted (codes "helper_unavailable") h a)
on_event-IsKept disposed_of h a = dispose-IsAccounted h a

on_events-IsKept :
    (events : List HelperEvent) (h : ChildSftpHelper) → IsAccounted h → IsKept (on_events events h)
unfolding on_events
on_events-IsKept [] h a = a
on_events-IsKept (event ∷ events) h a =
    then_kept (on_event event h) (on_event-IsKept event h a)
      (λ h' a'. on_events-IsKept events h' a')
  where
    then_kept :
        (o : Option ChildSftpHelper)
        → IsKept o
        → ((h' : ChildSftpHelper) → IsAccounted h' → IsKept (on_events events h'))
        → IsKept (elim o as (λ _. Option ChildSftpHelper) [
          | none ↦ none
          | some h' ↦ on_events events h'
        ])
    then_kept none k f = tt
    then_kept (some h') k f = f h' k

-- Whatever requests, answers, failures and aborts have come to a helper, in any order: every
-- request that was given a number waits, or was settled exactly once, and no other number was
-- ever settled; at most `maxPending` wait; none waits once the helper is disposed of or closed;
-- and the count of stderr bytes stays within its cap.
pub on_events-IsAccounted :
    (max_pending : ℕ) (events : List HelperEvent) (h : ChildSftpHelper)
    → on_events events (new_helper max_pending) ≡ some h
    → IsAccounted h
on_events-IsAccounted max_pending events h e =
    subst IsKept e
      (on_events-IsKept events (new_helper max_pending) (new_helper-IsAccounted max_pending))

one_due : (id next settled : ℕ) → 0 < id → id < next → 0 + settled ≡ due id next → settled ≡ 1
one_due id next settled low high once = ground arith

-- When the child process of a helper closes, after whatever events, each request that was given a
-- number has been settled exactly once, and a later request is turned away.
pub on_close-settles_all :
    (max_pending : ℕ) (events : List HelperEvent) (h : ChildSftpHelper)
    → on_events events (new_helper max_pending) ≡ some h
    → ((id : ℕ) → 0 < id → id < h.next_id → settlements id (on_close h) ≡ 1)
      × ((writable : Bool) (body : Text)
          → request writable body (on_close h) ≡ (turned_away (codes "helper_closed"), on_close h))
unfolding on_close request
on_close-settles_all max_pending events h e =
    let shut = on_close-IsAccounted h (on_events-IsAccounted max_pending events h e) in
    (
      λ id low high. one_due id h.next_id (settlements id (on_close h)) low high (shut.once id),
      λ writable body. refl,
    )

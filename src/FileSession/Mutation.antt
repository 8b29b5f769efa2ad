-- ===== src/FileSession/Mutation.antt =====
-- Redeeming a lease with `mutate` of src/server/file-session.ts.
use connexin.Prelude.{
  ℕ, ◌≡◌, refl, sym, ap, subst, ◌∙◌, inl, inr, Bool, true, false, codes, text_eq, text_eq→eq,
  length, ◌∷◌, Option, none, some, Bool-cases,
}
use connexin.Utf8.{Text}
use connexin.FileSession.Lease.{
  LeaseKind, Grant, find_lease, delete_lease, redeemable, consume_lease,
}
use connexin.FileSession.Run.{
  Reply, answered, refused, late, FileWorld, FileRun, Outcome, done, threw, M, then_run, ◌>>=◌,
  or_run, catch, get_helper, is_helper_loss,
}
use connexin.FileSession.Redeem.{consume, grant_or_throw, apply_grant, unknown_if_lost, mutate}
use connexin.FileSession.Safety.{mutations, Quietly, Holds, Anything}
use connexin.FileSession.Connection.{get_helper-Safe}
use connexin.FileSession.Applied.{
  request_of, IsConfirmed, IsLoss, IsReported, success, refusal, loss, no_reply, ended_by, IsEnd,
  Applied, spared, sent, after_quiet,
}
use connexin.FileSession.Confirmed.{
  Redeems, untouched, performed, apply_grant-Applied, find-delete_lease, redeemable_cases,
}

is_helper_loss-IsLoss : (message : Text) → is_helper_loss message ≡ true → IsLoss message
unfolding is_helper_loss
is_helper_loss-IsLoss message h = elim (Bool-cases (text_eq (codes "helper_closed") message)) [
  | inl one ↦ inl (named (codes "helper_closed") one)
  | inr no_one ↦ elim (Bool-cases (text_eq (codes "helper_unavailable") message)) [
    | inl two ↦ inr (inl (named (codes "helper_unavailable") two))
    | inr no_two ↦ elim (Bool-cases (text_eq (codes "aborted") message)) [
      | inl three ↦ inr (inr (inl (named (codes "aborted") three)))
      | inr no_three ↦ elim (Bool-cases (text_eq (codes "timeout") message)) [
        | inl four ↦ inr (inr (inr (named (codes "timeout") four)))
        | inr no_four ↦ absurd (differ (sym h ∙ rw (no_one, no_two, no_three, no_four) refl))
      ]
    ]
  ]
]
  where
    named : (name : Text) → text_eq name message ≡ true → message ≡ name
    named name e = sym (text_eq→eq name message e)

    differ : true ≡ false → ⊥
    differ e = cc

IsLoss-is_helper_loss : (message : Text) → IsLoss message → is_helper_loss message ≡ true
unfolding is_helper_loss
IsLoss-is_helper_loss message (inl e) = subst (λ m. is_helper_loss m ≡ true) (sym e) refl
IsLoss-is_helper_loss message (inr (inl e)) = subst (λ m. is_helper_loss m ≡ true) (sym e) refl
IsLoss-is_helper_loss message (inr (inr (inl e))) =
    subst (λ m. is_helper_loss m ≡ true) (sym e) refl
IsLoss-is_helper_loss message (inr (inr (inr e))) =
    subst (λ m. is_helper_loss m ≡ true) (sym e) refl

reply-IsReported :
    (a : Reply Bool) (r : FileRun) → IsReported a (or_run (ended_by a, r) unknown_if_lost).0
unfolding is_helper_loss
reply-IsReported (answered b) r = success b
reply-IsReported late r = no_reply
reply-IsReported (refused message) r = elim (Bool-cases (is_helper_loss message)) [
  | inl lost ↦ rw (lost) (loss message (is_helper_loss-IsLoss message lost))
  | inr other ↦
      rw (other) (refusal message (λ l. differ (sym (IsLoss-is_helper_loss message l) ∙ other)))
]
  where
    differ : true ≡ false → ⊥
    differ e = cc

-- The outcome of `mutate` on the reply to the request with this number.
abbrev IsOutcome : FileWorld → ℕ → Outcome Bool → Type 0
IsOutcome w n x = IsReported (w.on_mutation n) x

caught-IsOutcome :
    (w : FileWorld) (n : ℕ) (x : Outcome Bool × FileRun)
    → IsEnd w.on_mutation n x.0
    → IsOutcome w n (or_run x unknown_if_lost).0
caught-IsOutcome w n (y, r) e =
    subst (λ z. IsReported (w.on_mutation n) (or_run (z, r) unknown_if_lost).0) (sym e)
      (reply-IsReported (w.on_mutation n) r)

caught_run : (x : Outcome Bool × FileRun) → (or_run x unknown_if_lost).1 ≡ x.1
caught_run (done b, r) = refl
caught_run (threw message, r) = elim (Bool-cases (is_helper_loss message)) [
  | inl lost ↦ rw (lost) refl
  | inr other ↦ rw (other) refl
]

caught-threw :
    (x : Outcome Bool × FileRun) (message : Text)
    → x.0 ≡ threw message
    → (reported : Text) × ((or_run x unknown_if_lost).0 ≡ threw reported)
caught-threw (done b, r) message e = cc
caught-threw (threw other, r) message e = elim (Bool-cases (is_helper_loss other)) [
  | inl lost ↦ rw (lost) ((codes "outcome_unknown", refl))
  | inr plain ↦ rw (plain) ((other, refl))
]

-- After the lease is consumed.
abbrev spend : FileWorld → Grant → M Bool
spend w grant = get_helper w >>= λ h. catch (apply_grant w h grant) unknown_if_lost

-- A call that sends nothing, or what the grant allows once it is confirmed.
abbrev Spent : FileWorld → Grant → FileRun → Outcome Bool × FileRun → Type 0
Spent w grant r x = Applied (IsOutcome w) (IsConfirmed w grant) (request_of grant) r x

catch-Spent :
    (w : FileWorld) (h : ℕ) (grant : Grant) (r : FileRun)
    → Spent w grant r (catch (apply_grant w h grant) unknown_if_lost r)
catch-Spent w h grant r = moved (apply_grant w h grant r) (apply_grant-Applied w h grant r)
  where
    moved :
        (x : Outcome Bool × FileRun)
        → Applied (IsEnd w.on_mutation) (IsConfirmed w grant) (request_of grant) r x
        → Spent w grant r (or_run x unknown_if_lost)
    moved x (spared message e q) =
        let (reported, threw_it) = caught-threw x message e in
        spared reported threw_it (subst (Quietly r) (sym (caught_run x)) q)
    moved x (sent shown s m e q same gone earlier last told) =
        sent shown s m e q (ap (λ (t : FileRun). mutations t.sent) (caught_run x) ∙ same)
          (λ token h.
            ap (λ (t : FileRun). find_lease token t.session.leases) (caught_run x) ∙ gone token h)
          earlier (ap (λ (t : FileRun). t.sent) (caught_run x) ∙ last)
          (caught-IsOutcome w (length earlier) x told)

spend-Spent : (w : FileWorld) (grant : Grant) (r : FileRun) → Spent w grant r (spend w grant r)
spend-Spent w grant r = through (get_helper w r) (get_helper-Safe w r)
  where
    through :
        (x : Outcome ℕ × FileRun)
        → Quietly r x.1 × Holds Anything Anything x.0
        → Spent w grant r (then_run x (λ h. catch (apply_grant w h grant) unknown_if_lost))
    through (threw message, s) (quiet, _) = spared message refl quiet
    through (done h, s) (quiet, _) =
        after_quiet (IsOutcome w) (IsConfirmed w grant) (request_of grant) r s
          (catch (apply_grant w h grant) unknown_if_lost s) quiet (catch-Spent w h grant s)

-- The lease is gone after the call, whatever happens. The call throws and sends no mutation, or it
-- sends one: that of a lease that was there under this token, of the expected kind and not expired.
-- The helper's replies show, for a new directory, that nothing is there; for a deletion, an entry with
-- the fingerprint and the kind of the lease; for a rename, a source with the fingerprint of the
-- lease, and a target that is absent, or no symlink and with the fingerprint of the lease. After
-- the mutation nothing else is sent, and the call reports what the helper replied to it, and
-- `outcome_unknown` where it did not reply in time or refused with a message that says that it was
-- lost.
pub mutate-Redeems :
    (w : FileWorld) (token : Text) (kind : LeaseKind) (r : FileRun)
    → Redeems w token kind r (mutate w token kind r)
      × (find_lease token (mutate w token kind r).1.session.leases ≡ none)
unfolding mutate consume consume_lease
mutate-Redeems w token kind r =
    let leases = r.session.leases in
    let start = record r { session = record r.session { leases = delete_lease token leases } } in
    after (redeemable kind w.now (find_lease token leases)) refl start refl
      (find-delete_lease token leases)
  where
    after :
        (o : Option Grant)
        → redeemable kind w.now (find_lease token r.session.leases) ≡ o
        → (s : FileRun) → s.sent ≡ r.sent
        → find_lease token s.session.leases ≡ none
        → let x = then_run (grant_or_throw o s) (spend w) in
          Redeems w token kind r x × (find_lease token x.1.session.leases ≡ none)
    after none e s same away = (untouched (codes "invalid_lease") refl (ap mutations same), away)
    after (some grant) e s same away =
        let x = spend w grant s in
        let spent = spend-Spent w grant s in
        let (lease, found, is_grant, kinds, time) =
          redeemable_cases kind w.now (find_lease token r.session.leases) grant e in
        elim spent [
          | spared message threw_it quiet ↦
              (untouched message threw_it (quiet.same ∙ ap mutations same), quiet.gone token away)
          | sent shown t m is_request quiet sent_it gone earlier last told ↦ (
            performed lease m earlier found kinds time (subst (IsConfirmed w) (sym is_grant) shown)
                (ap request_of is_grant ∙ is_request)
                (sent_it ∙ ap (λ (l : _). m ∷ l) (quiet.same ∙ ap mutations same)) last told,
            gone token (quiet.gone token away),
          )
        ]

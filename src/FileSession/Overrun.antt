-- ===== src/FileSession/Overrun.antt =====
-- Calls of `prepare` of src/server/file-session.ts that wait at the same time. Each makes its tests
-- before its first wait and stores its lease after its last.
use connexin.Prelude.{
  suc, ◌+◌, ◌<◌, ◌≡◌, refl, sym, ap, subst, ◌∙◌, Bool, true, false, not, List, [], ◌∷◌, none, some,
  inl, inr, arith, if◌then◌else◌, Bool-cases, length, All, leb-eq-false, codes, text_eq,
}
use connexin.Utf8.{Text}
use connexin.FileSession.Lease.{Grant, Lease, Leases, find_lease, set_lease, prune_expired_leases}
use connexin.FileSession.Run.{FileWorld, FileRun, Outcome, done, threw}
use connexin.FileSession.Prepare.{with_leases, check_limit, begin_prepare, end_prepare}

-- The first parts of the calls, one after the other, and whether all of them go on.
unfoldable pub begin_all : List (FileWorld × Grant) → FileRun → Bool × FileRun
unfolding begin_prepare
begin_all [] r = (true, r)
begin_all ((w, grant) ∷ calls) r = elim (begin_prepare w r).0 [
  | done b ↦ begin_all calls (begin_prepare w r).1
  | threw message ↦ (false, (begin_prepare w r).1)
]

-- Then the last parts.
unfoldable pub end_all : List (FileWorld × Grant) → FileRun → FileRun
unfolding end_prepare
end_all [] r = r
end_all ((w, grant) ∷ calls) r = end_all calls (end_prepare w grant r).1

-- Nothing has expired, files are allowed, and there is room for one more lease.
pub record CanBegin (r : FileRun) (call : FileWorld × Grant) : Type 0 where
  pub enforced : call.0.config.file_root_confinement_enforced ≡ true
  pub current : prune_expired_leases call.0.now r.session.leases ≡ r.session.leases
  pub room : length r.session.leases < call.0.config.max_file_operation_leases

-- No two of the calls draw one token, and none draws one that is there.
abbrev pub AreFresh : Leases → List (FileWorld × Grant) → Type 0
AreFresh leases [] = Unit
AreFresh leases ((w, grant) ∷ calls) =
    (find_lease w.fresh_token leases ≡ none)
    × All (λ (call : FileWorld × Grant). text_eq w.fresh_token call.0.fresh_token ≡ false) calls
    × AreFresh leases calls

begin_done :
    (w : FileWorld) (grant : Grant) (r : FileRun)
    → CanBegin r (w, grant)
    → begin_prepare w r ≡ (done true, r)
unfolding begin_prepare
begin_done w grant r c =
    let refused : Outcome Bool × FileRun =
      (threw (codes "file_root_confinement_not_enforced"), r) in
    ap
      (λ b.
        if not b
        then refused
        else check_limit w (with_leases (prune_expired_leases w.now r.session.leases) r))
      c.enforced
    ∙ ap (λ (l : Leases). check_limit w (with_leases l r)) c.current
    ∙ ap (λ b. if b then (threw (codes "lease_limit"), r) else (done true, r))
        (leb-eq-false _ _ c.room)

begin_all-done :
    (calls : List (FileWorld × Grant)) (r : FileRun)
    → All (CanBegin r) calls
    → begin_all calls r ≡ (true, r)
unfolding begin_all
begin_all-done [] r h = refl
begin_all-done ((w, grant) ∷ calls) r h =
    subst
      (λ (x : Outcome Bool × FileRun).
        (elim x.0 as (λ _. Bool × FileRun) [
          | done b ↦ begin_all calls x.1
          | threw message ↦ (false, x.1)
        ])
        ≡ (true, r))
      (sym (begin_done w grant r h.0)) (begin_all-done calls r h.1)

length-set_lease :
    (token : Text) (lease : Lease) (leases : Leases)
    → find_lease token leases ≡ none
    → length (set_lease token lease leases) ≡ suc (length leases)
unfolding find_lease set_lease
length-set_lease token lease [] h = refl
length-set_lease token lease ((t, old) ∷ rest) h = elim (Bool-cases (text_eq t token)) [
  | inl same ↦ absurd (there (rw (same) at h))
  | inr other ↦ rw (other) (ap suc (length-set_lease token lease rest (rw (other) at h)))
]
  where
    there : some old ≡ none → ⊥
    there e = cc

find-set_lease :
    (token : Text) (lease : Lease) (leases : Leases) (j : Text)
    → text_eq token j ≡ false
    → find_lease j leases ≡ none
    → find_lease j (set_lease token lease leases) ≡ none
unfolding find_lease set_lease
find-set_lease token lease [] j apart h = rw (apart) refl
find-set_lease token lease ((t, old) ∷ rest) j apart h = elim (Bool-cases (text_eq t j)) [
  | inl here ↦ absurd (there (rw (here) at h))
  | inr away ↦ elim (Bool-cases (text_eq t token)) [
    | inl same ↦ rw (same, away) (rw (away) at h)
    | inr other ↦ rw (other, away) (find-set_lease token lease rest j apart (rw (away) at h))
  ]
]
  where
    there : some old ≡ none → ⊥
    there e = cc

AreFresh-set_lease :
    (token : Text) (lease : Lease) (leases : Leases) (calls : List (FileWorld × Grant))
    → All (λ (call : FileWorld × Grant). text_eq token call.0.fresh_token ≡ false) calls
    → AreFresh leases calls
    → AreFresh (set_lease token lease leases) calls
AreFresh-set_lease token lease leases [] apart f = tt
AreFresh-set_lease token lease leases ((w, grant) ∷ calls) apart f =
    let (free, others, rest) = f in
    (
      find-set_lease token lease leases w.fresh_token apart.0 free,
      others,
      AreFresh-set_lease token lease leases calls apart.1 rest,
    )

end_all-length :
    (calls : List (FileWorld × Grant)) (r : FileRun)
    → AreFresh r.session.leases calls
    → length (end_all calls r).session.leases ≡ length r.session.leases + length calls
unfolding end_all end_prepare
end_all-length [] r f = omega arith
end_all-length ((w, grant) ∷ calls) r f =
    let (free, apart, rest) = f in
    let s = (end_prepare w grant r).1 in
    omega (
      arith,
      end_all-length calls s (AreFresh-set_lease w.fresh_token _ r.session.leases calls apart rest),
      length-set_lease w.fresh_token _ r.session.leases free,
    )

-- Calls of `prepare` that wait at the same time pass the test of the limit together: where there
-- is room for one more lease, all of them go on, and their leases are all stored, however many
-- they are.
pub lease_limit_overrun :
    (calls : List (FileWorld × Grant)) (r : FileRun)
    → All (CanBegin r) calls
    → AreFresh r.session.leases calls
    → let (all_begun, waiting) = begin_all calls r in
      (all_begun ≡ true)
      × (length (end_all calls waiting).session.leases ≡ length r.session.leases + length calls)
lease_limit_overrun calls r can fresh =
    subst
      (λ (x : Bool × FileRun).
        (x.0 ≡ true)
        × (length (end_all calls x.1).session.leases ≡ length r.session.leases + length calls))
      (sym (begin_all-done calls r can)) (refl, end_all-length calls r fresh)

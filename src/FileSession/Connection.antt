-- ===== src/FileSession/Connection.antt =====
-- The connection to the helper in src/server/file-session.ts.
use connexin.Prelude.{
  ℕ, ◌≡◌, refl, sym, ap, ap₂, subst, ◌∙◌, false, Option, none, some, if◌then◌else◌, codes,
}
use connexin.Utf8.{Text}
use connexin.FileSession.Run.{
  hello, root_request, FileWorld, FileRun, Outcome, done, threw, effect, helper_spawned,
  helper_disposed, update_session, timed, adopt, greet, connect, reuse, get_helper,
}
use connexin.FileSession.Safety.{
  stay, Quietly-trans, Safe, Anything, bind-Safe, catch-Safe, FromHelper, timed-Safe, if-Safe,
  forget-Safe,
}

adopt-Safe : (h : ℕ) (root : Text) → Safe Anything Anything (adopt h root)
unfolding adopt
adopt-Safe h root r =
    if-Safe Anything Anything r.session.disposed r
      (threw (codes "session_closed"), effect (helper_disposed h) r)
      (done h, update_session (λ s. record s { root = root; helper = some h }) r)
      (record { same = refl; gone = λ token e. e }, tt)
      (record { same = refl; gone = λ token e. e }, tt)

greet-Safe : (w : FileWorld) (h : ℕ) → Safe Anything Anything (greet w h)
greet-Safe w h =
    catch-Safe Anything Anything Anything _ _
      (bind-Safe Anything Anything Anything (timed w h false hello w.on_hello) _
        (forget-Safe _ (FromHelper w.on_hello) (timed w h false hello w.on_hello)
          (timed-Safe w h false hello w.on_hello refl))
        (λ a p.
          bind-Safe Anything Anything Anything (timed w h false root_request w.on_root) _
            (forget-Safe _ (FromHelper w.on_root) (timed w h false root_request w.on_root)
              (timed-Safe w h false root_request w.on_root refl))
            (λ root p. adopt-Safe h root)))
      (λ message p r. (record { same = refl; gone = λ token e. e }, tt))

connect-Safe : (w : FileWorld) (o : Outcome ℕ) → Safe Anything Anything (connect w o)
unfolding connect
connect-Safe w (done h) r =
    let s = effect (helper_spawned h) r in
    let (quiet, holds) = greet-Safe w h s in
    (Quietly-trans r s (greet w h s).1 (record { same = refl; gone = λ token e. e }) quiet, holds)
connect-Safe w (threw message) r = (record { same = refl; gone = λ token e. e }, tt)

reuse-Safe :
    (w : FileWorld) (helper : Option ℕ) (pending : Option Text)
    → Safe Anything Anything (reuse w helper pending)
reuse-Safe w (some h) pending r = (stay r, tt)
reuse-Safe w none (some message) r = (stay r, tt)
reuse-Safe w none none r = connect-Safe w w.spawned r

pub get_helper-Safe : (w : FileWorld) → Safe Anything Anything (get_helper w)
unfolding get_helper
get_helper-Safe w r =
    if-Safe Anything Anything r.session.disposed r (threw (codes "session_closed"), r)
      (reuse w r.session.helper r.session.connecting r) (stay r, tt)
      (reuse-Safe w r.session.helper r.session.connecting r)

-- A connection that an exception of the factory has left behind is never replaced: every later
-- call that needs the helper throws the same again, and asks the factory no more, until the
-- session is disposed of.
pub connecting_stuck :
    (w : FileWorld) (r : FileRun) (message : Text)
    → r.session.disposed ≡ false
    → r.session.helper ≡ none
    → r.session.connecting ≡ none
    → w.spawned ≡ threw message
    → let r' = (get_helper w r).1 in
      ((get_helper w r).0 ≡ threw message)
      × ((later : FileWorld) → get_helper later r' ≡ (threw message, r'))
unfolding get_helper connect
connecting_stuck w r message live no_helper idle fails =
    let stuck = update_session (λ s. record s { connecting = some message }) r in
    let closed : Outcome ℕ × FileRun = (threw (codes "session_closed"), r) in
    let first : get_helper w r ≡ (threw message, stuck) =
      ap (λ b. if b then closed else reuse w r.session.helper r.session.connecting r) live
      ∙ ap₂ (λ o p. reuse w o p r) no_helper idle
      ∙ ap (λ o. connect w o r) fails in
    subst
      (λ (x : Outcome ℕ × FileRun).
        (x.0 ≡ threw message) × ((later : FileWorld) → get_helper later x.1 ≡ (threw message, x.1)))
      (sym first)
      (
        refl,
        λ later.
            let closed : Outcome ℕ × FileRun = (threw (codes "session_closed"), stuck) in
            ap (λ b. if b then closed else reuse later r.session.helper (some message) stuck) live
            ∙ ap (λ o. reuse later o (some message) stuck) no_helper,
      )

-- ===== src/SessionManager/History/Cleanup.antt =====
-- `cleanupExpiredSessions` and `closeAll` of src/server/session-manager.ts.
use connexin.Prelude.{
  ◌+◌, leb, text_eq→eq, true, false, ap, sym, ◌≡◌, refl, subst, ◌∙◌, ◌||◌, List, [], ◌∷◌, Option,
  none, some, inl, inr, Bool-cases, text_eq, Bool,
}
use connexin.Utf8.{Text}
use connexin.SessionManager.Session.{ConnexinSession}
use connexin.SessionManager.Manager.{World, Manager, find_session}
use connexin.SessionManager.Manager.Sessions.{IsUnique}
use connexin.SessionManager.Close.{
  close_found, close_session, expire_session, cleanup_from, close_each, expired_by_age,
  expired_by_idle, cleanup_expired_sessions,
}
use connexin.SessionManager.History.Change.{Change, stay, chain}
use connexin.SessionManager.History.Steps.{Changes, self_found}
use connexin.SessionManager.History.Lifetimes.{
  present_self, ArePresent, AreApart, apart_of_none, closing-Changes, closing_others,
}

Changes-trans : (w : World) (m n k : Manager) → Changes w m n → Changes w n k → Changes w m k
Changes-trans w m n k (c, e) (d, f) = (
  chain c (
      subst (λ (x : _). Change x w.fresh_id n.sessions k.sessions)
        (ap (λ (x : _). x.max_sessions) e) d),
  f ∙ e,
)

pub close_found-Changes :
    (w : World) (m : Manager) (id : Text) (o : Option ConnexinSession)
    → find_session id m.sessions ≡ o
    → Changes w m (close_found w m o).0
unfolding close_found
close_found-Changes w m id none f = (stay refl, refl)
close_found-Changes w m id (some s) f = closing-Changes w m s (self_found id s m.sessions f)

pub close_each-Changes :
    (w : World) (xs : List ConnexinSession) (m : Manager) → Changes w m (close_each w xs m)
unfolding close_each close_session
close_each-Changes w [] m = (stay refl, refl)
close_each-Changes w (x ∷ xs) m =
    let m' = (close_found w m (find_session x.id m.sessions)).0 in
    Changes-trans w m m' (close_each w xs m')
      (close_found-Changes w m x.id (find_session x.id m.sessions) refl)
      (close_each-Changes w xs m')

expire-Changes :
    (w : World) (s : ConnexinSession) (m : Manager)
    → find_session s.id m.sessions ≡ some s
    → Changes w m (expire_session w s m).0
unfolding expire_session
expire-Changes w s m f = let (c, e) = closing-Changes w _ s f in (c, e)

expire_others :
    (w : World) (s : ConnexinSession) (m : Manager) (j : Text)
    → text_eq s.id j ≡ false
    → find_session j (expire_session w s m).0.sessions ≡ find_session j m.sessions
unfolding expire_session
expire_others w s m j apart = closing_others w _ s j apart

still_present :
    (w : World) (s : ConnexinSession) (m : Manager) (xs : List ConnexinSession)
    → AreApart s.id xs
    → ArePresent m.sessions xs
    → ArePresent (expire_session w s m).0.sessions xs
still_present w s m [] a p = tt
still_present w s m (x ∷ xs) a p =
    (expire_others w s m x.id a.0 ∙ p.0, still_present w s m xs a.1 p.1)

pub cleanup_from-Changes :
    (w : World) (xs : List ConnexinSession) (m : Manager)
    → IsUnique xs
    → ArePresent m.sessions xs
    → Changes w m (cleanup_from w xs m).0
unfolding cleanup_from
cleanup_from-Changes w [] m u p = (stay refl, refl)
cleanup_from-Changes w (s ∷ xs) m u p =
    elim (Bool-cases (expired_by_age w m s || expired_by_idle w m s)) [
      | inr fresh ↦ rw (fresh) (cleanup_from-Changes w xs m u.1 p.1)
      | inl expired ↦
          let m' = (expire_session w s m).0 in
          rw (expired) (
            Changes-trans w m m' (cleanup_from w xs m').0 (expire-Changes w s m p.0) (
              cleanup_from-Changes w xs m' u.1
                (still_present w s m xs (apart_of_none s.id xs u.0) p.1)))
    ]

abbrev pub is_expired : World → Manager → ConnexinSession → Bool
is_expired w m s = expired_by_age w m s || expired_by_idle w m s

expire_apart :
    (w : World) (m : Manager) (x s : ConnexinSession)
    → find_session x.id m.sessions ≡ some x
    → find_session s.id m.sessions ≡ some s
    → is_expired w m x ≡ true
    → is_expired w m s ≡ false
    → text_eq x.id s.id ≡ false
expire_apart w m x s here there old young = elim (Bool-cases (text_eq x.id s.id)) [
  | inr apart ↦ apart
  | inl same ↦
      let one : some x ≡ some s =
        sym here ∙ ap (λ id. find_session id m.sessions) (text_eq→eq x.id s.id same) ∙ there in
      absurd (differ (sym old ∙ ap (is_expired w m) (unwrap one) ∙ young))
]
  where
    differ : true ≡ false → ⊥
    differ h = cc

    unwrap : some x ≡ some s → x ≡ s
    unwrap h = cc

cleanup_from_keeps :
    (w : World) (xs : List ConnexinSession) (m : Manager) (s : ConnexinSession)
    → IsUnique xs
    → ArePresent m.sessions xs
    → find_session s.id m.sessions ≡ some s
    → is_expired w m s ≡ false
    → find_session s.id (cleanup_from w xs m).0.sessions ≡ some s
unfolding cleanup_from
cleanup_from_keeps w [] m s u p f young = f
cleanup_from_keeps w (x ∷ xs) m s u p f young = elim (Bool-cases (is_expired w m x)) [
  | inr fresh ↦ rw (fresh) (cleanup_from_keeps w xs m s u.1 p.1 f young)
  | inl expired ↦
      let m' = (expire_session w x m).0 in
      let same = (expire-Changes w x m p.0).1 in
      rw (expired) (
        cleanup_from_keeps w xs m' s u.1 (still_present w x m xs (apart_of_none x.id xs u.0) p.1)
          (expire_others w x m s.id (expire_apart w m x s p.0 f expired young) ∙ f)
          (subst
            (λ (k : _).
              (leb (s.created_at + k.max_session_age_ms) w.now
                || leb (s.last_activity_at + k.idle_grace_ms) w.now)
              ≡ false)
            (sym same) young))
]

-- Where ids are distinct, `cleanupExpiredSessions` leaves every session that has not expired as
-- it is, whatever closing the others does.
pub cleanup_keeps_live :
    (w : World) (m : Manager) (s : ConnexinSession)
    → IsUnique m.sessions
    → find_session s.id m.sessions ≡ some s
    → is_expired w m s ≡ false
    → find_session s.id (cleanup_expired_sessions w m).0.sessions ≡ some s
unfolding cleanup_expired_sessions
cleanup_keeps_live w m s u f young =
    cleanup_from_keeps w m.sessions m s u (present_self m.sessions u) f young

-- ===== src/SessionManager/History/Change.antt =====
-- How any call of src/server/session-manager.ts can change the map of sessions.
use connexin.Prelude.{
  ℕ, ◌≤◌, ◌<◌, ◌≡◌, sym, ap, subst, ◌∙◌, ◌⊎◌, true, false, List, Option, none, some, inl, inr,
  arith, Bool-cases, length, text_eq, text_eq→eq,
}
use connexin.Utf8.{Text}
use connexin.SessionManager.Session.{ConnexinSession}
use connexin.SessionManager.Manager.{find_session, set_session, delete_session}
use connexin.SessionManager.Manager.Sessions.{
  IsUnique, find-set, find-delete_ne, find-delete_self, set-IsUnique, delete-IsUnique,
  length-set_session, length-set_session_found, length-delete_session,
}

-- `most` is `maxSessions`, and `new` the id that a creation draws.
pub data Change (most : ℕ) (new : Text) : List ConnexinSession → List ConnexinSession → Type 0 where
  stay : {xs ys : List ConnexinSession} → ys ≡ xs → Change most new xs ys
  rewrite :
      {xs ys : List ConnexinSession} (s s' : ConnexinSession)
      → find_session s.id xs ≡ some s
      → s'.id ≡ s.id
      → (s.closing ≡ false) ⊎ (s'.closing ≡ true)
      → ys ≡ set_session s' xs
      → Change most new xs ys
  remove :
      {xs ys : List ConnexinSession} (id : Text) → ys ≡ delete_session id xs → Change most new xs ys
  add :
      {xs ys : List ConnexinSession} (s' : ConnexinSession)
      → s'.id ≡ new
      → length xs < most
      → ys ≡ set_session s' xs
      → Change most new xs ys
  chain :
      {xs ys zs : List ConnexinSession}
      → Change most new xs ys
      → Change most new ys zs
      → Change most new xs zs

module _ {most : ℕ} {new : Text} where
  pub Change-IsUnique :
      {xs ys : List ConnexinSession} → Change most new xs ys → IsUnique xs → IsUnique ys
  Change-IsUnique (stay e) u = rw (e) u
  Change-IsUnique {xs} (rewrite s s' f i c e) u = rw (e) (set-IsUnique s' xs u)
  Change-IsUnique {xs} (remove id e) u = rw (e) (delete-IsUnique id xs u)
  Change-IsUnique {xs} (add s' i l e) u = rw (e) (set-IsUnique s' xs u)
  Change-IsUnique (chain c d) u = Change-IsUnique d (Change-IsUnique c u)

  pub Change-capacity :
      {xs ys : List ConnexinSession} → Change most new xs ys → length xs ≤ most → length ys ≤ most
  Change-capacity (stay e) h = rw (e) h
  Change-capacity {xs} (rewrite s s' f i c e) h = rw (e) (
      omega (
        arith,
        length-set_session_found s' s xs (subst (λ t. find_session t xs ≡ some s) (sym i) f),
      ))
  Change-capacity {xs} (remove id e) h = rw (e) (omega (arith, length-delete_session id xs))
  Change-capacity {xs} (add s' i l e) h = rw (e) (omega (arith, length-set_session s' xs))
  Change-capacity (chain c d) h = Change-capacity d (Change-capacity c h)

-- The session of this id is closing, or has left the map.
pub data IsOver (id : Text) (xs : List ConnexinSession) : Type 0 where
  left : find_session id xs ≡ none → IsOver id xs
  closing : (s : ConnexinSession) → find_session id xs ≡ some s → s.closing ≡ true → IsOver id xs

find-delete_none' :
    (id j : Text) (xs : List ConnexinSession)
    → IsUnique xs
    → (find_session id (delete_session j xs) ≡ none)
      ⊎ (find_session id (delete_session j xs) ≡ find_session id xs)
find-delete_none' id j xs u = elim (Bool-cases (text_eq j id)) [
  | inl same ↦ inl (
      subst (λ t. find_session id (delete_session t xs) ≡ none) (sym (text_eq→eq j id same))
        (find-delete_self id xs u))
  | inr apart ↦ inr (find-delete_ne j id xs apart)
]

IsOver-carry :
    (id : Text) (xs ys : List ConnexinSession)
    → find_session id ys ≡ find_session id xs
    → IsOver id xs
    → IsOver id ys
IsOver-carry id xs ys e (left h) = left (e ∙ h)
IsOver-carry id xs ys e (closing s h c) = closing s (e ∙ h) c

find-set_same :
    (id : Text) (s : ConnexinSession) (xs : List ConnexinSession)
    → text_eq s.id id ≡ true
    → find_session id (set_session s xs) ≡ some s
find-set_same id s xs h = find-set id s xs ∙ rw (h)

find-set_apart :
    (id : Text) (s : ConnexinSession) (xs : List ConnexinSession)
    → text_eq s.id id ≡ false
    → find_session id (set_session s xs) ≡ find_session id xs
find-set_apart id s xs h = find-set id s xs ∙ rw (h)

some_is_one : {s t : ConnexinSession} {o : Option ConnexinSession} → o ≡ some s → o ≡ some t → s ≡ t
some_is_one a b = cc

none_is_not_some : {t : ConnexinSession} {o : Option ConnexinSession} → o ≡ none → o ≡ some t → ⊥
none_is_not_some a b = cc

rewrite-IsOver :
    (id : Text) (s s' : ConnexinSession) (xs : List ConnexinSession)
    → find_session id xs ≡ some s
    → text_eq s'.id id ≡ true
    → (s.closing ≡ false) ⊎ (s'.closing ≡ true)
    → IsOver id xs
    → IsOver id (set_session s' xs)
rewrite-IsOver id s s' xs f i (inr c) o = closing s' (find-set_same id s' xs i) c
rewrite-IsOver id s s' xs f i (inl c) (left h) = absurd (none_is_not_some h f)
rewrite-IsOver id s s' xs f i (inl c) (closing t h k) =
    absurd (false_true (sym c ∙ ap (λ (x : ConnexinSession). x.closing) (some_is_one f h) ∙ k))
  where
    false_true : false ≡ true → ⊥
    false_true e = cc

pub Change-IsOver :
    {most : ℕ} {new id : Text} {xs ys : List ConnexinSession}
    → Change most new xs ys
    → text_eq new id ≡ false
    → IsUnique xs
    → IsOver id xs
    → IsOver id ys
Change-IsOver {id} {xs} {ys} (stay e) n u o = IsOver-carry id xs ys (ap (find_session id) e) o
Change-IsOver {id} {xs} (rewrite s s' f i c e) n u o = rw (e) (elim (Bool-cases (text_eq s.id id)) [
  | inr apart ↦
      IsOver-carry id xs _
        (find-set_apart id s' xs (subst (λ t. text_eq t id ≡ false) (sym i) apart)) o
  | inl same ↦
      rewrite-IsOver id s s' xs
        (subst (λ t. find_session t xs ≡ some s) (text_eq→eq s.id id same) f)
        (subst (λ t. text_eq t id ≡ true) (sym i) same) c o
])
Change-IsOver {id} {xs} (remove j e) n u o = rw (e) (elim (find-delete_none' id j xs u) [
  | inl gone ↦ left gone
  | inr kept ↦ IsOver-carry id xs _ kept o
])
Change-IsOver {id} {xs} (add s' i l e) n u o =
    rw (e) (
      IsOver-carry id xs _ (find-set_apart id s' xs (subst (λ t. text_eq t id ≡ false) (sym i) n))
        o)
Change-IsOver (chain c d) n u o = Change-IsOver d n (Change-IsUnique c u) (Change-IsOver c n u o)

-- ===== src/SessionManager/Manager/Sessions.antt =====
-- The laws of the map of sessions (src/server/session-manager.ts, `sessions`).
use connexin.Prelude.{
  suc, ◌+◌, ◌≤◌, ◌≡◌, refl, ap, subst, ◌∙◌, true, false, List, [], ◌∷◌, none, some, inl, inr, arith,
  if◌then◌else◌, Bool-cases, length, text_eq, text_eq→eq, text_eq_sym,
}
use connexin.Utf8.{Text}
use connexin.SessionManager.Session.{ConnexinSession}
use connexin.SessionManager.Manager.{find_session, set_session, delete_session}

pub text_eq_trans : (a b c : Text) → text_eq a b ≡ true → text_eq a c ≡ text_eq b c
text_eq_trans a b c h = rw (text_eq→eq a b h)

pub find-set :
    (id : Text) (s : ConnexinSession) (xs : List ConnexinSession)
    → find_session id (set_session s xs) ≡ (if text_eq s.id id then some s else find_session id xs)
unfolding find_session set_session
find-set id s [] = refl
find-set id s (x ∷ xs) = elim (Bool-cases (text_eq x.id s.id)) [
  | inl same ↦
      rw (same, text_eq_trans x.id s.id id same)
        (elim (Bool-cases (text_eq s.id id)) [ inl a ↦ rw (a) | inr a ↦ rw (a) ])
  | inr other ↦ elim (Bool-cases (text_eq x.id id)) [
    | inl here ↦
        let away : text_eq s.id id ≡ false =
          subst (λ t. text_eq s.id t ≡ false) (text_eq→eq x.id id here)
            (text_eq_sym s.id x.id ∙ other) in
        rw (other, here, away)
    | inr there ↦ rw (other, there) (find-set id s xs)
  ]
]

-- Ids occur once.
abbrev pub IsUnique : List ConnexinSession → Type 0
IsUnique [] = Unit
IsUnique (s ∷ rest) = (find_session s.id rest ≡ none) × IsUnique rest

pub find-delete_ne :
    (id j : Text) (xs : List ConnexinSession)
    → text_eq id j ≡ false
    → find_session j (delete_session id xs) ≡ find_session j xs
unfolding find_session delete_session
find-delete_ne id j [] h = refl
find-delete_ne id j (x ∷ xs) h = elim (Bool-cases (text_eq x.id id)) [
  | inl gone ↦
      let away : text_eq x.id j ≡ false = text_eq_trans x.id id j gone ∙ h in rw (gone, away)
  | inr kept ↦ elim (Bool-cases (text_eq x.id j)) [
    | inl here ↦ rw (kept, here)
    | inr there ↦ rw (kept, there) (find-delete_ne id j xs h)
  ]
]

pub find-delete_self :
    (id : Text) (xs : List ConnexinSession)
    → IsUnique xs
    → find_session id (delete_session id xs) ≡ none
unfolding find_session delete_session
find-delete_self id [] u = refl
find-delete_self id (x ∷ xs) u = elim (Bool-cases (text_eq x.id id)) [
  | inl gone ↦ rw (gone) (subst (λ t. find_session t xs ≡ none) (text_eq→eq x.id id gone) u.0)
  | inr kept ↦ rw (kept) (rw (kept) (find-delete_self id xs u.1))
]

pub set-IsUnique :
    (s : ConnexinSession) (xs : List ConnexinSession) → IsUnique xs → IsUnique (set_session s xs)
unfolding set_session find_session
set-IsUnique s [] u = (refl, tt)
set-IsUnique s (x ∷ xs) u = elim (Bool-cases (text_eq x.id s.id)) [
  | inl same ↦
      rw (same) (subst (λ t. find_session t xs ≡ none) (text_eq→eq x.id s.id same) u.0, u.1)
  | inr other ↦
      rw (other) (find-set x.id s xs ∙ rw (text_eq_sym s.id x.id, other) u.0, set-IsUnique s xs u.1)
]

find-delete_none :
    (id j : Text) (xs : List ConnexinSession)
    → find_session j xs ≡ none
    → find_session j (delete_session id xs) ≡ none
unfolding find_session delete_session
find-delete_none id j [] h = refl
find-delete_none id j (x ∷ xs) h = elim (Bool-cases (text_eq x.id j)) [
  | inl here ↦ absurd (is_some (rw (here) at h))
  | inr there ↦ elim (Bool-cases (text_eq x.id id)) [
    | inl gone ↦ rw (gone) (rw (there) at h)
    | inr kept ↦ rw (kept, there) (find-delete_none id j xs (rw (there) at h))
  ]
]
  where
    is_some : some x ≡ none → ⊥
    is_some e = cc

pub delete-IsUnique :
    (id : Text) (xs : List ConnexinSession) → IsUnique xs → IsUnique (delete_session id xs)
unfolding delete_session
delete-IsUnique id [] u = tt
delete-IsUnique id (x ∷ xs) u = elim (Bool-cases (text_eq x.id id)) [
  | inl gone ↦ rw (gone) u.1
  | inr kept ↦ rw (kept) (find-delete_none id x.id xs u.0, delete-IsUnique id xs u.1)
]

-- A write to a session that is there changes no length; a new one adds one.
pub length-set_session :
    (s : ConnexinSession) (xs : List ConnexinSession) → length (set_session s xs) ≤ length xs + 1
unfolding set_session
length-set_session s [] = omega arith
length-set_session s (x ∷ xs) = ground (arith, length-set_session s xs)

pub length-set_session_found :
    (s x : ConnexinSession) (xs : List ConnexinSession)
    → find_session s.id xs ≡ some x
    → length (set_session s xs) ≡ length xs
unfolding set_session find_session
length-set_session_found s x [] h = cc
length-set_session_found s x (y ∷ xs) h = elim (Bool-cases (text_eq y.id s.id)) [
  | inl same ↦ rw (same)
  | inr other ↦ rw (other) (ap suc (length-set_session_found s x xs (rw (other) at h)))
]

pub length-delete_session :
    (id : Text) (xs : List ConnexinSession) → length (delete_session id xs) ≤ length xs
unfolding delete_session
length-delete_session id [] = omega arith
length-delete_session id (x ∷ xs) = ground (arith, length-delete_session id xs)

pub find_session-id :
    (id : Text) (s : ConnexinSession) (xs : List ConnexinSession)
    → find_session id xs ≡ some s
    → text_eq s.id id ≡ true
unfolding find_session
find_session-id id s [] h = cc
find_session-id id s (x ∷ xs) h = elim (Bool-cases (text_eq x.id id)) [
  | inl same ↦ subst (λ (y : ConnexinSession). text_eq y.id id ≡ true) (just (rw (same) at h)) same
  | inr other ↦ find_session-id id s xs (rw (other) at h)
]
  where
    just : some x ≡ some s → x ≡ s
    just e = cc

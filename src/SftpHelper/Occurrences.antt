-- ===== src/SftpHelper/Occurrences.antt =====
-- Counting the numbers of requests of src/server/sftp-helper.ts.
use connexin.Prelude.{
  ℕ, suc, ◌+◌, ◌≤◌, ◌<◌, ◌≡◌, refl, true, List, [], ◌∷◌, ◌++◌, map, inl, inr, arith, ◌==◌,
  if◌then◌else◌, Bool-cases, length,
}
use connexin.Utf8.{Text}
use connexin.SftpHelper.{Settlement, refused, has_id, delete_id}

-- How often a number stands in a list.
abbrev pub occurrences : ℕ → List ℕ → ℕ
occurrences id [] = 0
occurrences id (x ∷ xs) = let rest = occurrences id xs in if x == id then suc rest else rest

abbrev pub ids_of : List (ℕ × Settlement) → List ℕ
ids_of settled = map (λ (s : ℕ × Settlement). s.0) settled

pub occurrences-append :
    (id : ℕ) (xs ys : List ℕ) → occurrences id (xs ++ ys) ≡ occurrences id xs + occurrences id ys
occurrences-append id [] ys = omega arith
occurrences-append id (x ∷ xs) ys = ground (arith, occurrences-append id xs ys)

pub occurrences-delete_id :
    (id y : ℕ) (xs : List ℕ)
    → occurrences id (delete_id y xs) ≡ (if id == y then 0 else occurrences id xs)
unfolding delete_id
occurrences-delete_id id y [] = ground arith
occurrences-delete_id id y (x ∷ xs) = ground (arith, occurrences-delete_id id y xs)

pub has_id-occurrences : (id : ℕ) (xs : List ℕ) → has_id id xs ≡ true → 0 < occurrences id xs
has_id-occurrences id [] h = cc
has_id-occurrences id (x ∷ xs) h = elim (Bool-cases (x == id)) [
  | inl here ↦ rw (here) (omega arith)
  | inr away ↦ rw (away) (has_id-occurrences id xs (rw (away) at h))
]

pub delete_id-nil : (y : ℕ) → delete_id y [] ≡ []
unfolding delete_id
delete_id-nil y = refl

pub length-delete_id : (y : ℕ) (xs : List ℕ) → length (delete_id y xs) ≤ length xs
unfolding delete_id
length-delete_id y [] = omega arith
length-delete_id y (x ∷ xs) = ground (arith, length-delete_id y xs)

pub ids_of-refused :
    (error : Text) (xs : List ℕ) (settled : List (ℕ × Settlement)) (id : ℕ)
    → occurrences id (ids_of (map (λ x. (x, refused error)) xs ++ settled))
      ≡ occurrences id xs + occurrences id (ids_of settled)
ids_of-refused error [] settled id = omega arith
ids_of-refused error (x ∷ xs) settled id = ground (arith, ids_of-refused error xs settled id)

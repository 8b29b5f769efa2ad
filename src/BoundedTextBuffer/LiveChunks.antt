-- ===== src/BoundedTextBuffer/LiveChunks.antt =====
-- The live chunks of the ring of src/shared/bounded-text-buffer.ts, and what trimming does to them.
use connexin.Prelude.{
  ℕ, ◌+◌, ◌-◌, ◌≤◌, ◌<◌, ◌≡◌, refl, sym, ap, ◌∙◌, ◌⊎◌, inl, inr, List, [], ◌∷◌, ◌++◌, map, arith,
  ltb, leb, if◌then◌else◌, Bool-cases, ltb→lt, ltb-false→le, leb→le, leb-false→lt, lt→ltb, le→leb,
  leb-eq-false, ltb-eq-false, drop, sum, flatten, append_assoc,
}
use connexin.Utf8.{Text, utf8_byte_length, drop_first_utf8_bytes}
use connexin.Utf8.Cuts.{drop_first_utf8_bytes_parts}
use connexin.BoundedTextBuffer.{BoundedTextBuffer}

-- The chunks that are still part of the text, oldest first.
abbrev pub live : BoundedTextBuffer → List Text
live b = drop b.first_chunk b.chunks

abbrev pub size : List Text → ℕ
size xs = sum (map utf8_byte_length xs)

-- What trimming means for the live chunks.
pub trim_live : ℕ → List Text → List Text
trim_live max_bytes [] = []
trim_live max_bytes (x ∷ xs) =
    let overflow = size (x ∷ xs) - max_bytes in
    let later = trim_live max_bytes xs in
    if ltb max_bytes (size (x ∷ xs))
    then (if leb (utf8_byte_length x) overflow
        then later
        else (drop_first_utf8_bytes x overflow).text ∷ xs)
    else x ∷ xs

pub trim_live_fits :
    (max_bytes : ℕ) (xs : List Text) → size xs ≤ max_bytes → trim_live max_bytes xs ≡ xs
unfolding trim_live
trim_live_fits max_bytes [] h = refl
trim_live_fits max_bytes (x ∷ xs) h = rw (ltb-eq-false max_bytes (size (x ∷ xs)) h)

pub none_left : (max_bytes : ℕ) (xs : List Text) → xs ≡ [] → xs ≡ trim_live max_bytes xs
unfolding trim_live
none_left max_bytes [] e = refl
none_left max_bytes (x ∷ xs) e = cc

module _ (max_bytes : ℕ) (x : Text) (xs : List Text) (over : max_bytes < size (x ∷ xs)) where
  pub trim_live-drop :
      utf8_byte_length x ≤ size (x ∷ xs) - max_bytes
      → trim_live max_bytes (x ∷ xs) ≡ trim_live max_bytes xs
  unfolding trim_live
  trim_live-drop h = rw (lt→ltb _ _ over, le→leb _ _ h)

  pub trim_live-cut :
      size (x ∷ xs) - max_bytes < utf8_byte_length x
      → trim_live max_bytes (x ∷ xs)
        ≡ (drop_first_utf8_bytes x (size (x ∷ xs) - max_bytes)).text ∷ xs
  unfolding trim_live
  trim_live-cut h = rw (lt→ltb _ _ over, leb-eq-false _ _ h)

pub trim_live_within : (max_bytes : ℕ) (xs : List Text) → size (trim_live max_bytes xs) ≤ max_bytes
unfolding trim_live
trim_live_within max_bytes [] = omega arith
trim_live_within max_bytes (x ∷ xs) = elim (Bool-cases (ltb max_bytes (size (x ∷ xs)))) [
  | inr fits ↦ rw (fits) (ltb-false→le _ _ fits)
  | inl over ↦
      let overflow = size (x ∷ xs) - max_bytes in
      elim (Bool-cases (leb (utf8_byte_length x) overflow)) [
        | inl whole ↦ rw (over, whole) (trim_live_within max_bytes xs)
        | inr partial ↦
            let (_, counted, enough, _) = drop_first_utf8_bytes_parts x overflow in
            rw (over, partial)
              (omega (arith, counted, enough, leb-false→lt _ _ partial, ltb→lt _ _ over))
      ]
]

-- Text is lost from the front only, and only to leave less than four bytes unused.
abbrev pub Keeps : ℕ → List Text → List Text → Type 0
Keeps max_bytes xs ys =
    ((gone : Text) × (flatten xs ≡ gone ++ flatten ys)) × ((ys ≡ xs) ⊎ (max_bytes < size ys + 4))

after_drop :
    (max_bytes : ℕ) (x : Text) (xs ys : List Text)
    → (ys ≡ xs) ⊎ (max_bytes < size ys + 4)
    → max_bytes ≤ size xs
    → (ys ≡ x ∷ xs) ⊎ (max_bytes < size ys + 4)
after_drop max_bytes x xs ys (inl same) h = inr (omega (arith, ap size same))
after_drop max_bytes x xs ys (inr tight) h = inr tight

pub trim_live-Keeps : (max_bytes : ℕ) (xs : List Text) → Keeps max_bytes xs (trim_live max_bytes xs)
unfolding trim_live
trim_live-Keeps max_bytes [] = (([], refl), inl refl)
trim_live-Keeps max_bytes (x ∷ xs) = elim (Bool-cases (ltb max_bytes (size (x ∷ xs)))) [
  | inr fits ↦ rw (fits) (([], refl), inl refl)
  | inl over ↦
      let overflow = size (x ∷ xs) - max_bytes in
      elim (Bool-cases (leb (utf8_byte_length x) overflow)) [
        | inl whole ↦
            let ((gone, e), tight) = trim_live-Keeps max_bytes xs in
            rw (over, whole)
              (
                (
                  x ++ gone,
                  ap (◌++◌ x) e ∙ sym (append_assoc x gone (flatten (trim_live max_bytes xs))),
                ),
                after_drop max_bytes x xs (trim_live max_bytes xs) tight
                    (omega (arith, leb→le _ _ whole, ltb→lt _ _ over)),
              )
        | inr partial ↦
            let ((gone, e), counted, enough, tight) = drop_first_utf8_bytes_parts x overflow in
            rw (over, partial)
              (
                (
                  gone,
                  ap (λ t. t ++ flatten xs) e
                      ∙ append_assoc gone (drop_first_utf8_bytes x overflow).text (flatten xs),
                ),
                inr (omega (arith, ltb→lt _ _ over)),
              )
      ]
]

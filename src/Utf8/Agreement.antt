-- ===== src/Utf8/Agreement.antt =====
-- The claim of src/shared/utf8.ts that scanning the dropped side and scanning the kept side give one
-- string: `takeLastUtf8Bytes` against `dropFirstUtf8Bytes`.
use mathlib.Core.List.{reverse_aux, reverse-reverse}
use connexin.Prelude.{
  ℕ, ◌+◌, ◌-◌, ◌≤◌, ◌<◌, ◌≡◌, refl, sym, ap, subst, ◌∙◌, false, inl, inr, [], ◌∷◌, reverse, arith,
  ltb, leb, ◌==◌, Bool-cases, ltb→lt, leb→le, ltb-false→le, ==_iff, leb-eq-false,
}
use connexin.Utf8.{
  Text, Cut, is_pair, byte_length_of_range, utf8_byte_length, drop_first_from,
  drop_first_utf8_bytes, take_last_from, take_last_utf8_bytes,
}
use connexin.Utf8.Units.{
  byte_length-nil, byte_length-pair, byte_length-unit, byte_length-unit_bounds, pair_bytes,
}
use connexin.Utf8.LongestSuffix.{
  longest_suffix, cuts_pair, longest_suffix_nil, longest_suffix_fits, longest_suffix-pair,
  longest_suffix-unit, byte_length-cons, pair_apart, single_head, longest_suffix-skip, uncut,
}

-- The backward scan: it returns the longest suffix, with its bytes, within the limit.
abbrev Keeps : ℕ → Text → Cut → Type 0
Keeps max_bytes text c =
    (c.text ≡ longest_suffix max_bytes text)
    × (c.bytes ≡ byte_length_of_range c.text)
    × (c.bytes ≤ max_bytes)

Keeps-stop :
    (max_bytes bytes : ℕ) (before kept point : Text) (all : Text)
    → bytes ≡ byte_length_of_range kept
    → bytes ≤ max_bytes
    → longest_suffix max_bytes all ≡ longest_suffix max_bytes kept
    → Keeps max_bytes all (record { text = kept; bytes = bytes })
Keeps-stop max_bytes bytes before kept point all counted within same =
    (sym (same ∙ longest_suffix_fits max_bytes kept (omega arith)), counted, within)

take_last_from-Keeps :
    (max_bytes bytes : ℕ) (before kept : Text)
    → cuts_pair before kept ≡ false
    → bytes ≡ byte_length_of_range kept
    → bytes ≤ max_bytes
    → Keeps max_bytes (reverse_aux before kept) (take_last_from max_bytes bytes before kept)
unfolding take_last_from
take_last_from-Keeps max_bytes bytes [] kept apart counted within =
    Keeps-stop max_bytes bytes [] kept [] kept counted within refl
take_last_from-Keeps max_bytes bytes (unit ∷ []) kept apart counted within =
    let width = byte_length_of_range (unit ∷ []) in
    let single = single_head unit [] kept apart in
    let longer = byte_length-cons unit kept single in
    elim (Bool-cases (ltb max_bytes (bytes + width))) [
      | inl full ↦ rw (full) (
          Keeps-stop max_bytes bytes [] kept [] (unit ∷ kept) counted within (
            longest_suffix-unit max_bytes unit kept single
              (omega (arith, ltb→lt _ _ full, longer))))
      | inr fits ↦ rw (fits) (
          Keeps-stop max_bytes (bytes + width) [] (unit ∷ kept) [] (unit ∷ kept)
            (omega (arith, longer)) (ltb-false→le _ _ fits) refl)
    ]
take_last_from-Keeps max_bytes bytes (unit ∷ previous ∷ before) kept apart counted within =
    let single = single_head unit (previous ∷ before) kept apart in
    let longer = byte_length-cons unit kept single in
    elim (Bool-cases (is_pair previous unit)) [
      | inl pair ↦
          let width = byte_length_of_range (previous ∷ unit ∷ []) in
          let wide : byte_length_of_range (previous ∷ unit ∷ kept)
              ≡ width + byte_length_of_range kept =
            omega
              (arith, byte_length-pair previous unit kept pair, pair_bytes previous unit pair) in
          let free = pair_apart before previous unit kept pair in
          elim (Bool-cases (ltb max_bytes (bytes + width))) [
            | inl full ↦
                let longest : max_bytes < byte_length_of_range (previous ∷ unit ∷ kept) =
                  omega (arith, ltb→lt _ _ full) in
                rw (pair, full)
                  (Keeps-stop max_bytes bytes before kept [] _ counted within (
                    longest_suffix-skip max_bytes before (previous ∷ unit ∷ kept) free longest
                    ∙ longest_suffix-pair max_bytes previous unit kept pair longest))
            | inr fits ↦
                rw (pair, fits)
                  (take_last_from-Keeps max_bytes (bytes + width) before (previous ∷ unit ∷ kept)
                    free (omega arith) (ltb-false→le _ _ fits))
          ]
      | inr lone ↦
          let width = byte_length_of_range (unit ∷ []) in
          elim (Bool-cases (ltb max_bytes (bytes + width))) [
            | inl full ↦
                let longest : max_bytes < byte_length_of_range (unit ∷ kept) =
                  omega (arith, ltb→lt _ _ full, longer) in
                rw (lone, full)
                  (Keeps-stop max_bytes bytes before kept [] _ counted within (
                    longest_suffix-skip max_bytes (previous ∷ before) (unit ∷ kept) lone longest
                    ∙ longest_suffix-unit max_bytes unit kept single longest))
            | inr fits ↦
                rw (lone, fits)
                  (take_last_from-Keeps max_bytes (bytes + width) (previous ∷ before) (unit ∷ kept)
                    lone (omega (arith, longer)) (ltb-false→le _ _ fits))
          ]
    ]

-- The forward scan drops exactly what does not fit.
drop_first_from-longest_suffix :
    (max_bytes min_bytes dropped : ℕ) (text : Text)
    → dropped + byte_length_of_range text ≡ min_bytes + max_bytes
    → (drop_first_from min_bytes dropped text).text ≡ longest_suffix max_bytes text
unfolding drop_first_from
drop_first_from-longest_suffix max_bytes min_bytes dropped [] h = sym (longest_suffix_nil max_bytes)
drop_first_from-longest_suffix max_bytes min_bytes dropped (unit ∷ []) h =
    elim (Bool-cases (ltb dropped min_bytes)) [
      | inl more ↦ rw (more) (
          sym (
            longest_suffix-unit max_bytes unit [] refl (omega (arith, ltb→lt _ _ more))
            ∙ longest_suffix_nil max_bytes))
      | inr done ↦
          rw (done)
            (sym (longest_suffix_fits max_bytes (unit ∷ []) (omega (arith, ltb-false→le _ _ done))))
    ]
drop_first_from-longest_suffix max_bytes min_bytes dropped (unit ∷ next ∷ rest) h =
    elim (Bool-cases (ltb dropped min_bytes)) [
      | inl more ↦
          let long : max_bytes < byte_length_of_range (unit ∷ next ∷ rest) =
            omega (arith, ltb→lt _ _ more) in
          elim (Bool-cases (is_pair unit next)) [
            | inl pair ↦
                rw (more, pair)
                  (drop_first_from-longest_suffix max_bytes min_bytes
                      (dropped + byte_length_of_range (unit ∷ next ∷ [])) rest
                      (omega
                        (arith, byte_length-pair unit next rest pair, pair_bytes unit next pair))
                    ∙ sym (longest_suffix-pair max_bytes unit next rest pair long))
            | inr single ↦
                rw (more, single)
                  (drop_first_from-longest_suffix max_bytes min_bytes
                      (dropped + byte_length_of_range (unit ∷ [])) (next ∷ rest)
                      (omega (arith, byte_length-unit unit next rest single))
                    ∙ sym (longest_suffix-unit max_bytes unit (next ∷ rest) single long))
          ]
      | inr done ↦ rw (done) (
          sym (
            longest_suffix_fits max_bytes (unit ∷ next ∷ rest)
              (omega (arith, ltb-false→le _ _ done))))
    ]

drop_first-longest_suffix :
    (text : Text) (max_bytes : ℕ)
    → (drop_first_utf8_bytes text (utf8_byte_length text - max_bytes)).text
      ≡ longest_suffix max_bytes text
unfolding drop_first_utf8_bytes utf8_byte_length
drop_first-longest_suffix text max_bytes =
    elim (Bool-cases ((byte_length_of_range text - max_bytes) == 0)) [
      | inl fits ↦
          rw (fits) (sym (longest_suffix_fits max_bytes text (omega (arith, (==_iff _ 0).0 fits))))
      | inr long ↦ rw (long) (
          drop_first_from-longest_suffix max_bytes (byte_length_of_range text - max_bytes) 0 text
            (ground arith))
    ]

longest_suffix_zero : (text : Text) → longest_suffix 0 text ≡ []
unfolding longest_suffix
longest_suffix_zero [] = refl
longest_suffix_zero (unit ∷ []) = rw (leb-eq-false _ _ (byte_length-unit_bounds unit).0)
longest_suffix_zero (unit ∷ next ∷ rest) = elim (Bool-cases (is_pair unit next)) [
  | inl pair ↦
      longest_suffix-pair 0 unit next rest pair
        (omega (arith, byte_length-pair unit next rest pair))
      ∙ longest_suffix_zero rest
  | inr single ↦
      longest_suffix-unit 0 unit (next ∷ rest) single
        (omega (arith, byte_length-unit unit next rest single, byte_length-unit_bounds unit))
      ∙ longest_suffix_zero (next ∷ rest)
]

take_last-Keeps :
    (text : Text) (max_bytes : ℕ) → Keeps max_bytes text (take_last_utf8_bytes text max_bytes)
unfolding take_last_utf8_bytes utf8_byte_length
take_last-Keeps text max_bytes = elim (Bool-cases (max_bytes == 0)) [
  | inl empty ↦ rw (empty) (
    rw ((==_iff max_bytes 0).0 empty) (sym (longest_suffix_zero text)),
    sym byte_length-nil,
    omega arith,
  )
  | inr positive ↦ elim (Bool-cases (leb (byte_length_of_range text) max_bytes)) [
    | inl fits ↦
        rw (positive, fits)
          (sym (longest_suffix_fits max_bytes text (leb→le _ _ fits)), refl, leb→le _ _ fits)
    | inr long ↦
        rw (positive, long)
          (subst (λ t. Keeps max_bytes t (take_last_from max_bytes 0 (reverse text) []))
            (reverse-reverse text)
            (take_last_from-Keeps max_bytes 0 (reverse text) [] (uncut (reverse text))
              (sym byte_length-nil) (omega arith)))
  ]
]

-- `takeLastUtf8Bytes` returns the very string that `dropFirstUtf8Bytes` leaves when it is asked to
-- drop what exceeds the limit, and counts that string's bytes exactly and within the limit.
pub take_last-drop_first :
    (text : Text) (max_bytes : ℕ)
    → let c = take_last_utf8_bytes text max_bytes in
      (c.text ≡ (drop_first_utf8_bytes text (utf8_byte_length text - max_bytes)).text)
      × (c.bytes ≡ utf8_byte_length c.text)
      × (c.bytes ≤ max_bytes)
unfolding utf8_byte_length
take_last-drop_first text max_bytes =
    let (same, counted, within) = take_last-Keeps text max_bytes in
    (same ∙ sym (drop_first-longest_suffix text max_bytes), counted, within)

-- A text within the limit is kept whole.
pub take_last_fits :
    (text : Text) (max_bytes : ℕ)
    → utf8_byte_length text ≤ max_bytes
    → take_last_utf8_bytes text max_bytes ≡ record { text = text; bytes = utf8_byte_length text }
unfolding utf8_byte_length
take_last_fits text max_bytes h =
    let (same, counted, within) = take_last-Keeps text max_bytes in
    let whole = same ∙ longest_suffix_fits max_bytes text h in
    cc (whole, counted ∙ ap byte_length_of_range whole)

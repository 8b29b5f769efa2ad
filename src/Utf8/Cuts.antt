-- ===== src/Utf8/Cuts.antt =====
-- What `dropFirstUtf8Bytes` and `takeFirstUtf8Bytes` of src/shared/utf8.ts return.
use connexin.Prelude.{
  ℕ, ◌+◌, ◌≤◌, ◌<◌, ◌≡◌, refl, sym, ap, subst, ◌∙◌, ◌⊎◌, false, inl, inr, [], ◌∷◌, ◌++◌, arith, ltb,
  append_assoc, ==_iff, ltb-false→le, ◌==◌, Bool-cases, ltb→lt,
}
use connexin.Utf8.{
  Text, Cut, is_pair, byte_length_of_range, utf8_byte_length, drop_first_from,
  drop_first_utf8_bytes, take_first_from, take_first_utf8_bytes,
}
use connexin.Utf8.Units.{
  byte_length-nil, byte_length-pair, byte_length-unit, byte_length-unit_bounds, pair_bytes,
}

-- The text of `c` is what is left of `text` once `c.bytes - dropped` of its bytes are gone.
record Drops (min_bytes dropped : ℕ) (text : Text) (c : Cut) : Type 0 where
  prefix : Text
  joined : text ≡ prefix ++ c.text
  counted : dropped + byte_length_of_range text ≡ c.bytes + byte_length_of_range c.text
  enough : min_bytes ≤ dropped + byte_length_of_range text → min_bytes ≤ c.bytes
  tight : dropped < min_bytes + 4 → c.bytes < min_bytes + 4

Drops-stay :
    (min_bytes dropped : ℕ) (text : Text)
    → min_bytes ≤ dropped
    → Drops min_bytes dropped text (record { text = text; bytes = dropped })
Drops-stay min_bytes dropped text h = record {
  prefix = [];
  joined = refl;
  counted = refl;
  enough = λ _. h;
  tight = λ t. t;
}

Drops-step :
    (min_bytes dropped width : ℕ) (point rest : Text) (c : Cut)
    → byte_length_of_range (point ++ rest) ≡ width + byte_length_of_range rest
    → width ≤ 4
    → dropped < min_bytes
    → Drops min_bytes (dropped + width) rest c
    → Drops min_bytes dropped (point ++ rest) c
Drops-step min_bytes dropped width point rest c split narrow more d = record {
  prefix = point ++ d.prefix;
  joined = ap (◌++◌ point) d.joined ∙ sym (append_assoc point d.prefix c.text);
  counted = omega (arith, d.counted);
  enough = λ h. d.enough (omega arith);
  tight = λ h. d.tight (omega arith);
}

drop_first_from-Drops :
    (min_bytes dropped : ℕ) (text : Text)
    → Drops min_bytes dropped text (drop_first_from min_bytes dropped text)
unfolding drop_first_from
drop_first_from-Drops min_bytes dropped [] = record {
  prefix = [];
  joined = refl;
  counted = refl;
  enough = λ h. omega (arith, byte_length-nil);
  tight = λ h. h;
}
drop_first_from-Drops min_bytes dropped (unit ∷ []) = elim (Bool-cases (ltb dropped min_bytes)) [
  | inl more ↦ rw (more) (
      Drops-step min_bytes dropped (byte_length_of_range (unit ∷ [])) (unit ∷ []) [] _
        (omega (arith, byte_length-nil)) (omega (arith, byte_length-unit_bounds unit))
        (ltb→lt _ _ more)
        (record {
          prefix = [];
          joined = refl;
          counted = refl;
          enough = λ h. omega (arith, byte_length-nil);
          tight = λ h. h;
        }))
  | inr done ↦ rw (done) (Drops-stay min_bytes dropped (unit ∷ []) (ltb-false→le _ _ done))
]
drop_first_from-Drops min_bytes dropped (unit ∷ next ∷ rest) =
    elim (Bool-cases (ltb dropped min_bytes)) [
      | inl more ↦ elim (Bool-cases (is_pair unit next)) [
        | inl pair ↦
            rw (more, pair)
              (Drops-step min_bytes dropped (byte_length_of_range (unit ∷ next ∷ []))
                (unit ∷ next ∷ []) rest _
                (omega (arith, byte_length-pair unit next rest pair, pair_bytes unit next pair))
                (omega (arith, pair_bytes unit next pair)) (ltb→lt _ _ more)
                (drop_first_from-Drops min_bytes (dropped + byte_length_of_range (unit ∷ next ∷ []))
                  rest))
        | inr single ↦
            rw (more, single)
              (Drops-step min_bytes dropped (byte_length_of_range (unit ∷ [])) (unit ∷ [])
                (next ∷ rest) _ (byte_length-unit unit next rest single)
                (omega (arith, byte_length-unit_bounds unit)) (ltb→lt _ _ more)
                (drop_first_from-Drops min_bytes (dropped + byte_length_of_range (unit ∷ []))
                  (next ∷ rest)))
      ]
      | inr done ↦
          rw (done) (Drops-stay min_bytes dropped (unit ∷ next ∷ rest) (ltb-false→le _ _ done))
    ]

enough_or_less :
    {min_bytes total bytes : ℕ}
    → (min_bytes ≤ 0 + total → min_bytes ≤ bytes)
    → (total < min_bytes) ⊎ (min_bytes ≤ bytes)
enough_or_less {min_bytes} {total} h = elim (Bool-cases (ltb total min_bytes)) [
  | inl less ↦ inl (ltb→lt _ _ less)
  | inr held ↦ inr (h (omega (arith, ltb-false→le _ _ held)))
]

-- `dropFirstUtf8Bytes` removes a prefix, reports exactly the bytes by which the rest is shorter,
-- removes at least `min_bytes` where the text has as many, and fewer than four bytes too much.
pub drop_first_utf8_bytes_parts :
    (text : Text) (min_bytes : ℕ)
    → let c = drop_first_utf8_bytes text min_bytes in
      ((prefix : Text) × (text ≡ prefix ++ c.text))
      × (utf8_byte_length text ≡ c.bytes + utf8_byte_length c.text)
      × ((utf8_byte_length text < min_bytes) ⊎ (min_bytes ≤ c.bytes))
      × (c.bytes < min_bytes + 4)
unfolding drop_first_utf8_bytes utf8_byte_length
drop_first_utf8_bytes_parts text min_bytes = elim (Bool-cases (min_bytes == 0)) [
  | inl none_asked ↦
      rw (none_asked) (
        ([], refl),
        omega arith,
        inr (omega (arith, (==_iff min_bytes 0).0 none_asked)),
        omega arith,
      )
  | inr some_asked ↦
      let d = drop_first_from-Drops min_bytes 0 text in
      rw (some_asked) (
        (d.prefix, d.joined),
        omega (arith, d.counted),
        enough_or_less d.enough,
        d.tight (omega arith),
      )
]

record Takes (max_bytes bytes : ℕ) (text : Text) (c : Cut) : Type 0 where
  suffix : Text
  joined : text ≡ c.text ++ suffix
  counted : c.bytes ≡ bytes + byte_length_of_range c.text
  within : c.bytes ≤ max_bytes
  maximal : (text ≡ c.text) ⊎ (max_bytes < c.bytes + 4)

Takes-stop :
    (max_bytes bytes : ℕ) (text : Text)
    → bytes ≤ max_bytes
    → (text ≡ []) ⊎ (max_bytes < bytes + 4)
    → Takes max_bytes bytes text (record { text = []; bytes = bytes })
Takes-stop max_bytes bytes text h stop = record {
  suffix = text;
  joined = refl;
  counted = omega (arith, byte_length-nil);
  within = h;
  maximal = stop;
}

Takes-step :
    (max_bytes bytes width : ℕ) (point rest : Text) (c : Cut)
    → byte_length_of_range (point ++ c.text) ≡ width + byte_length_of_range c.text
    → Takes max_bytes (bytes + width) rest c
    → Takes max_bytes bytes (point ++ rest) (record { text = point ++ c.text; bytes = c.bytes })
Takes-step max_bytes bytes width point rest c split t = record {
  suffix = t.suffix;
  joined = ap (◌++◌ point) t.joined ∙ sym (append_assoc point c.text t.suffix);
  counted = omega (arith, t.counted);
  within = t.within;
  maximal = elim t.maximal [ inl e ↦ inl (ap (◌++◌ point) e) | inr m ↦ inr m ];
}

-- A unit that begins no pair with what follows keeps its own bytes before any prefix of that.
byte_length-unit_prefix :
    (unit next : ℕ) (rest xs suffix : Text)
    → is_pair unit next ≡ false
    → next ∷ rest ≡ xs ++ suffix
    → byte_length_of_range (unit ∷ xs) ≡ byte_length_of_range (unit ∷ []) + byte_length_of_range xs
byte_length-unit_prefix unit next rest [] suffix single e = omega (arith, byte_length-nil)
byte_length-unit_prefix unit next rest (x ∷ xs) suffix single e =
    let same : next ≡ x = cc in
    byte_length-unit unit x xs (subst (λ n. is_pair unit n ≡ false) same single)

take_first_from-Takes :
    (max_bytes bytes : ℕ) (text : Text)
    → bytes ≤ max_bytes
    → Takes max_bytes bytes text (take_first_from max_bytes bytes text)
unfolding take_first_from
take_first_from-Takes max_bytes bytes [] h = Takes-stop max_bytes bytes [] h (inl refl)
take_first_from-Takes max_bytes bytes (unit ∷ []) h =
    let width = byte_length_of_range (unit ∷ []) in
    elim (Bool-cases (ltb max_bytes (bytes + width))) [
      | inl full ↦ rw (full) (
          Takes-stop max_bytes bytes (unit ∷ []) h
            (inr (omega (arith, ltb→lt _ _ full, byte_length-unit_bounds unit))))
      | inr fits ↦ rw (fits) (
          Takes-step max_bytes bytes width (unit ∷ []) []
            (record { text = []; bytes = bytes + width }) (omega (arith, byte_length-nil))
            (Takes-stop max_bytes (bytes + width) [] (ltb-false→le _ _ fits) (inl refl)))
    ]
take_first_from-Takes max_bytes bytes (unit ∷ next ∷ rest) h =
    elim (Bool-cases (is_pair unit next)) [
      | inl pair ↦
          let width = byte_length_of_range (unit ∷ next ∷ []) in
          elim (Bool-cases (ltb max_bytes (bytes + width))) [
            | inl full ↦
                rw (pair, full)
                  (Takes-stop max_bytes bytes _ h
                    (inr (omega (arith, ltb→lt _ _ full, pair_bytes unit next pair))))
            | inr fits ↦
                let c = take_first_from max_bytes (bytes + width) rest in
                rw (pair, fits)
                  (Takes-step max_bytes bytes width (unit ∷ next ∷ []) rest c
                    (omega
                      (arith, byte_length-pair unit next c.text pair, pair_bytes unit next pair))
                    (take_first_from-Takes max_bytes (bytes + width) rest (ltb-false→le _ _ fits)))
          ]
      | inr single ↦
          let width = byte_length_of_range (unit ∷ []) in
          elim (Bool-cases (ltb max_bytes (bytes + width))) [
            | inl full ↦
                rw (single, full)
                  (Takes-stop max_bytes bytes _ h
                    (inr (omega (arith, ltb→lt _ _ full, byte_length-unit_bounds unit))))
            | inr fits ↦
                let c = take_first_from max_bytes (bytes + width) (next ∷ rest) in
                let t =
                  take_first_from-Takes max_bytes (bytes + width) (next ∷ rest)
                    (ltb-false→le _ _ fits) in
                rw (single, fits)
                  (Takes-step max_bytes bytes width (unit ∷ []) (next ∷ rest) c
                    (byte_length-unit_prefix unit next rest c.text t.suffix single t.joined) t)
          ]
    ]

-- `takeFirstUtf8Bytes` returns a prefix with its exact byte length, within the limit, and stops
-- only at the end of the text or when fewer than four bytes are left of the limit.
pub take_first_utf8_bytes_parts :
    (text : Text) (max_bytes : ℕ)
    → let c = take_first_utf8_bytes text max_bytes in
      ((suffix : Text) × (text ≡ c.text ++ suffix))
      × (c.bytes ≡ utf8_byte_length c.text)
      × (c.bytes ≤ max_bytes)
      × ((text ≡ c.text) ⊎ (max_bytes < c.bytes + 4))
unfolding take_first_utf8_bytes utf8_byte_length
take_first_utf8_bytes_parts text max_bytes = elim (Bool-cases (max_bytes == 0)) [
  | inl empty ↦ rw (empty) (
    (text, refl),
    omega (arith, byte_length-nil),
    omega arith,
    inr (omega (arith, (==_iff max_bytes 0).0 empty)),
  )
  | inr positive ↦
      let t = take_first_from-Takes max_bytes 0 text (omega arith) in
      rw (positive) ((t.suffix, t.joined), omega (arith, t.counted), t.within, t.maximal)
]

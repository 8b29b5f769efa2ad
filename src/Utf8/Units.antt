-- ===== src/Utf8/Units.antt =====
-- Byte lengths one code point at a time (src/shared/utf8.ts, `byteLengthOfRange`).
use connexin.Prelude.{
  ℕ, ◌+◌, ◌≤◌, ◌≡◌, refl, Bool, true, false, ◌&&◌, ◌∙◌, if◌then◌else◌, inl, inr, [], ◌∷◌, ◌++◌,
  arith, leb, Bool-cases, leb→le, and-eq-true, ltb-eq-false, eq-false_of_ne_true,
}
use connexin.Utf8.{Text, is_pair, is_high_surrogate, is_low_surrogate, byte_length_of_range}

-- The ranges that a surrogate pair lies in.
pub is_pair_bounds :
    (unit next : ℕ)
    → is_pair unit next ≡ true
    → (0xd800 ≤ unit) × (unit ≤ 0xdbff) × (0xdc00 ≤ next) × (next ≤ 0xdfff)
is_pair_bounds unit next h =
    let (high, low) = and-eq-true (is_high_surrogate unit) (is_low_surrogate next) h in
    let (a, b) = and-eq-true (leb 0xd800 unit) (leb unit 0xdbff) high in
    let (c, d) = and-eq-true (leb 0xdc00 next) (leb next 0xdfff) low in
    (leb→le _ _ a, leb→le _ _ b, leb→le _ _ c, leb→le _ _ d)

pub byte_length-pair :
    (unit next : ℕ) (rest : Text)
    → is_pair unit next ≡ true
    → byte_length_of_range (unit ∷ next ∷ rest) ≡ 4 + byte_length_of_range rest
unfolding byte_length_of_range
byte_length-pair unit next rest h =
    let (high, low) = and-eq-true (is_high_surrogate unit) (is_low_surrogate next) h in
    let (above, _, _, _) = is_pair_bounds unit next h in
    rw (ltb-eq-false unit 0x80 (omega arith), ltb-eq-false unit 0x800 (omega arith), high, low)

-- A unit of at least 0x800 that begins no pair takes three bytes.
pub byte_length-three : (unit : ℕ) → 0x800 ≤ unit → byte_length_of_range (unit ∷ []) ≡ 3
unfolding byte_length_of_range
byte_length-three unit h = rw (ltb-eq-false unit 0x80 (omega arith), ltb-eq-false unit 0x800 h)

pub next_ends_pair : (unit next more : ℕ) → is_pair unit next ≡ true → is_pair next more ≡ false
next_ends_pair unit next more h =
    let (_, _, above, _) = is_pair_bounds unit next h in
    eq-false_of_ne_true _
      λ again. let (_, below, _, _) = is_pair_bounds next more again in absurd (omega arith)

pub byte_length-unit :
    (unit next : ℕ) (rest : Text)
    → is_pair unit next ≡ false
    → byte_length_of_range (unit ∷ next ∷ rest)
      ≡ byte_length_of_range (unit ∷ []) + byte_length_of_range (next ∷ rest)
unfolding byte_length_of_range
byte_length-unit unit next rest h = ground arith

pub byte_length-unit_bounds :
    (unit : ℕ) → (1 ≤ byte_length_of_range (unit ∷ [])) × (byte_length_of_range (unit ∷ []) ≤ 3)
unfolding byte_length_of_range
byte_length-unit_bounds unit = ground arith

-- Whether a text ends in a high surrogate, or begins with a low one.
abbrev pub ends_high : Text → Bool
ends_high [] = false
ends_high (unit ∷ []) = is_high_surrogate unit
ends_high (unit ∷ next ∷ rest) = ends_high (next ∷ rest)

abbrev pub starts_low : Text → Bool
starts_low [] = false
starts_low (unit ∷ rest) = is_low_surrogate unit

pub byte_length-nil : byte_length_of_range [] ≡ 0
unfolding byte_length_of_range
byte_length-nil = refl

pub pair_bytes :
    (unit next : ℕ) → is_pair unit next ≡ true → byte_length_of_range (unit ∷ next ∷ []) ≡ 4
pair_bytes unit next h = omega (arith, byte_length-pair unit next [] h, byte_length-nil)

byte_length-low :
    (unit next : ℕ) (rest : Text)
    → is_pair unit next ≡ true
    → byte_length_of_range (next ∷ rest) ≡ 3 + byte_length_of_range rest
byte_length-low unit next [] h =
    let (_, _, above, _) = is_pair_bounds unit next h in
    byte_length-three next (omega arith) ∙ (omega (arith, byte_length-nil))
byte_length-low unit next (more ∷ rest) h =
    let (_, _, above, _) = is_pair_bounds unit next h in
    omega (
      arith,
      byte_length-unit next more rest (next_ends_pair unit next more h),
      byte_length-three next (omega arith),
    )

-- Whether joining two texts makes a pair of surrogates: one that ends in a high surrogate, and one
-- that begins with a low one.
abbrev pub joins_pair : Text → Text → Bool
joins_pair xs ys = ends_high xs && starts_low ys

-- A pair takes four bytes, and its halves three each.
abbrev pub saved : Bool → ℕ
saved joins = if joins then 2 else 0

byte_length-cons :
    (unit : ℕ) (rest : Text)
    → byte_length_of_range (unit ∷ rest) + saved (joins_pair (unit ∷ []) rest)
      ≡ byte_length_of_range (unit ∷ []) + byte_length_of_range rest
byte_length-cons unit [] = elim (Bool-cases (is_high_surrogate unit)) [
  | inl high ↦ rw (high) (omega (arith, byte_length-nil))
  | inr low ↦ rw (low) (omega (arith, byte_length-nil))
]
byte_length-cons unit (next ∷ rest) = elim (Bool-cases (is_pair unit next)) [
  | inl pair ↦
      let (above, _, _, _) = is_pair_bounds unit next pair in
      rw (pair) (
        omega (
          arith,
          byte_length-pair unit next rest pair,
          byte_length-low unit next rest pair,
          byte_length-three unit (omega arith),
        ))
  | inr single ↦ rw (single) (omega (arith, byte_length-unit unit next rest single))
]

ends_high-pair :
    (unit next : ℕ) (rest : Text)
    → is_pair unit next ≡ true
    → ends_high (unit ∷ next ∷ rest) ≡ ends_high rest
ends_high-pair unit next (more ∷ rest) pair = refl
ends_high-pair unit next [] pair =
    let (_, _, above, _) = is_pair_bounds unit next pair in
    elim (Bool-cases (is_high_surrogate next)) [
      | inl high ↦
          let (_, below) = and-eq-true (leb 0xd800 next) (leb next 0xdbff) high in
          absurd (omega (arith, leb→le _ _ below))
      | inr other ↦ other
    ]

-- Joining two texts saves two bytes where it makes a pair of surrogates, and nothing elsewhere.
pub byte_length-append :
    (xs ys : Text)
    → byte_length_of_range (xs ++ ys) + saved (joins_pair xs ys)
      ≡ byte_length_of_range xs + byte_length_of_range ys
byte_length-append [] ys = omega (arith, byte_length-nil)
byte_length-append (unit ∷ []) ys = byte_length-cons unit ys
byte_length-append (unit ∷ next ∷ rest) ys = elim (Bool-cases (is_pair unit next)) [
  | inl pair ↦ rw (ends_high-pair unit next rest pair) (
      omega (
        arith,
        byte_length-pair unit next rest pair,
        byte_length-pair unit next (rest ++ ys) pair,
        byte_length-append rest ys,
      ))
  | inr single ↦ omega (
    arith,
    byte_length-unit unit next rest single,
    byte_length-unit unit next (rest ++ ys) single,
    byte_length-append (next ∷ rest) ys,
  )
]

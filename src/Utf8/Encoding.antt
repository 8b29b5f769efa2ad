-- ===== src/Utf8/Encoding.antt =====
-- What src/shared/utf8.ts promises of its byte counts: they are those of `TextEncoder`, here the
-- decoding of UTF-16 and the encoding to UTF-8 written out.
use connexin.Prelude.{
  ℕ, ◌+◌, ◌-◌, ◌*◌, ◌/◌, ◌%◌, ◌<◌, ◌≡◌, refl, inl, inr, Bool-cases, ltb-eq-false, ◌||◌, List, [],
  ◌∷◌, ◌++◌, arith, ltb, if◌then◌else◌, length, length-append, All,
}
use connexin.Utf8.{
  Text, is_high_surrogate, is_low_surrogate, is_pair, byte_length_of_range, utf8_byte_length,
}
use connexin.Utf8.Units.{byte_length-nil, byte_length-pair, byte_length-unit}

-- An unpaired surrogate is replaced by U+FFFD.
abbrev scalar_of : ℕ → ℕ
scalar_of unit = if is_high_surrogate unit || is_low_surrogate unit then 0xfffd else unit

scalar_values : Text → List ℕ
scalar_values [] = []
scalar_values (unit ∷ []) = scalar_of unit ∷ []
scalar_values (unit ∷ next ∷ rest) =
    let after_pair = scalar_values rest in
    let after_unit = scalar_values (next ∷ rest) in
    if is_pair unit next
    then (0x10000 + (unit - 0xd800) * 1024 + (next - 0xdc00)) ∷ after_pair
    else scalar_of unit ∷ after_unit

encode_scalar : ℕ → List ℕ
encode_scalar c =
    if ltb c 0x80
    then c ∷ []
    else if ltb c 0x800
    then (0xc0 + c / 64) ∷ (0x80 + c % 64) ∷ []
    else if ltb c 0x10000
    then (0xe0 + c / 4096) ∷ (0x80 + c / 64 % 64) ∷ (0x80 + c % 64) ∷ []
    else (0xf0 + c / 262144) ∷ (0x80 + c / 4096 % 64) ∷ (0x80 + c / 64 % 64) ∷ (0x80 + c % 64) ∷ []

encode_scalars : List ℕ → List ℕ
encode_scalars [] = []
encode_scalars (c ∷ cs) = encode_scalar c ++ encode_scalars cs

-- `new TextEncoder().encode(text)`.
pub text_encoder_encode : Text → List ℕ
unfolding scalar_values encode_scalars encode_scalar
text_encoder_encode text = encode_scalars (scalar_values text)

abbrev pub IsCodeUnit : ℕ → Type 0
IsCodeUnit unit = unit < 0x10000

abbrev scalar_width : ℕ → ℕ
scalar_width c = if ltb c 0x80 then 1 else if ltb c 0x800 then 2 else if ltb c 0x10000 then 3 else 4

length-encode_scalars :
    (c : ℕ) (cs : List ℕ)
    → length (encode_scalars (c ∷ cs)) ≡ scalar_width c + length (encode_scalars cs)
unfolding encode_scalars encode_scalar
length-encode_scalars c cs = ground (arith, length-append (encode_scalar c) (encode_scalars cs))

scalar_of_width :
    (unit : ℕ) → IsCodeUnit unit → scalar_width (scalar_of unit) ≡ byte_length_of_range (unit ∷ [])
unfolding byte_length_of_range
scalar_of_width unit h = ground arith

pair_width :
    (unit next : ℕ) (rest : Text)
    → length
        (encode_scalars ((0x10000 + (unit - 0xd800) * 1024 + (next - 0xdc00)) ∷ scalar_values rest))
      ≡ 4 + length (encode_scalars (scalar_values rest))
unfolding encode_scalars encode_scalar
pair_width unit next rest =
    rw
      (
        ltb-eq-false (0x10000 + (unit - 0xd800) * 1024 + (next - 0xdc00)) 0x80 (omega arith),
        ltb-eq-false (0x10000 + (unit - 0xd800) * 1024 + (next - 0xdc00)) 0x800 (omega arith),
        ltb-eq-false (0x10000 + (unit - 0xd800) * 1024 + (next - 0xdc00)) 0x10000 (omega arith),
      )
      (omega arith)

nothing_left : length (encode_scalars []) ≡ 0
unfolding encode_scalars
nothing_left = refl

encoded :
    (text : Text)
    → All IsCodeUnit text
    → byte_length_of_range text ≡ length (encode_scalars (scalar_values text))
unfolding scalar_values
encoded [] h = omega (arith, byte_length-nil, nothing_left)
encoded (unit ∷ []) h =
    omega (arith, length-encode_scalars (scalar_of unit) [], scalar_of_width unit h.0, nothing_left)
encoded (unit ∷ next ∷ rest) h = elim (Bool-cases (is_pair unit next)) [
  | inl pair ↦ rw (pair) (
      omega (
        arith,
        byte_length-pair unit next rest pair,
        encoded rest h.1.1,
        pair_width unit next rest,
      ))
  | inr single ↦ rw (single) (
      omega (
        arith,
        byte_length-unit unit next rest single,
        encoded (next ∷ rest) h.1,
        scalar_of_width unit h.0,
        length-encode_scalars (scalar_of unit) (scalar_values (next ∷ rest)),
      ))
]

-- The byte length of any sequence of code units, unpaired surrogates included, is the number of
-- bytes of its UTF-8 encoding by `TextEncoder`.
pub utf8_byte_length-encode :
    (text : Text) → All IsCodeUnit text → utf8_byte_length text ≡ length (text_encoder_encode text)
unfolding utf8_byte_length text_encoder_encode
utf8_byte_length-encode text h = encoded text h

-- ===== src/Utf8.antt =====
-- src/shared/utf8.ts: byte accounting over UTF-16 code units. A JavaScript string is the list of its
-- code units; a position in it is the split into what stands before it and what stands after it.
-- Byte limits are natural numbers, so the source's `maxBytes <= 0` is a test for zero.
pub mod Units
pub mod Encoding
pub mod Cuts
pub mod LongestSuffix
pub mod Agreement
use connexin.Prelude.{ℕ, ◌+◌, Bool, ◌&&◌, List, [], ◌∷◌, reverse, ltb, leb, ◌==◌, if◌then◌else◌}

-- A text is its code units, each below 2 ^ 16.
abbrev pub Text : Type 0
Text = List ℕ

-- The `{ text, bytes }` that the three cutters return.
pub record Cut : Type 0 where
  pub text : Text
  pub bytes : ℕ

abbrev pub is_high_surrogate : ℕ → Bool
is_high_surrogate unit = leb 0xd800 unit && leb unit 0xdbff

abbrev pub is_low_surrogate : ℕ → Bool
is_low_surrogate unit = leb 0xdc00 unit && leb unit 0xdfff

-- A high surrogate directly before a low one: the two are one code point.
abbrev pub is_pair : ℕ → ℕ → Bool
is_pair first second = is_high_surrogate first && is_low_surrogate second

-- The loop of `byteLengthOfRange` from `index` to `end`; `rest` is what the range still holds.
unfoldable pub byte_length_of_range : Text → ℕ
byte_length_of_range [] = 0
byte_length_of_range (unit ∷ []) = if ltb unit 0x80 then 1 else if ltb unit 0x800 then 2 else 3
byte_length_of_range (unit ∷ next ∷ rest) =
    let after_unit = byte_length_of_range (next ∷ rest) in
    let after_pair = byte_length_of_range rest in
    if ltb unit 0x80
    then 1 + after_unit
    else if ltb unit 0x800
    then 2 + after_unit
    else if is_high_surrogate unit
    then (if is_low_surrogate next then 4 + after_pair else 3 + after_unit)
    else 3 + after_unit

unfoldable pub utf8_byte_length : Text → ℕ
unfolding byte_length_of_range
utf8_byte_length text = byte_length_of_range text

-- The loop of `takeFirstUtf8Bytes`: the code points that still fit.
take_first_from : (max_bytes bytes : ℕ) → Text → Cut
take_first_from max_bytes bytes [] = record { text = []; bytes = bytes }
take_first_from max_bytes bytes (unit ∷ []) =
    let next_bytes = bytes + byte_length_of_range (unit ∷ []) in
    if ltb max_bytes next_bytes
    then record { text = []; bytes = bytes }
    else record { text = unit ∷ []; bytes = next_bytes }
take_first_from max_bytes bytes (unit ∷ next ∷ rest) =
    let pair_bytes = bytes + byte_length_of_range (unit ∷ next ∷ []) in
    let unit_bytes = bytes + byte_length_of_range (unit ∷ []) in
    let after_pair = take_first_from max_bytes pair_bytes rest in
    let after_unit = take_first_from max_bytes unit_bytes (next ∷ rest) in
    if is_pair unit next
    then (if ltb max_bytes pair_bytes
        then record { text = []; bytes = bytes }
        else record { text = unit ∷ next ∷ after_pair.text; bytes = after_pair.bytes })
    else (if ltb max_bytes unit_bytes
        then record { text = []; bytes = bytes }
        else record { text = unit ∷ after_unit.text; bytes = after_unit.bytes })

unfoldable pub take_first_utf8_bytes : Text → ℕ → Cut
unfolding take_first_from byte_length_of_range
take_first_utf8_bytes text max_bytes =
    if max_bytes == 0 then record { text = []; bytes = 0 } else take_first_from max_bytes 0 text

-- The loop of `takeLastUtf8Bytes`: `before` is the text before `start`, nearest unit first, and
-- `kept` the text from `start` on.
take_last_from : (max_bytes bytes : ℕ) → Text → Text → Cut
take_last_from max_bytes bytes [] kept = record { text = kept; bytes = bytes }
take_last_from max_bytes bytes (unit ∷ []) kept =
    let candidate = bytes + byte_length_of_range (unit ∷ []) in
    if ltb max_bytes candidate
    then record { text = kept; bytes = bytes }
    else record { text = unit ∷ kept; bytes = candidate }
take_last_from max_bytes bytes (unit ∷ previous ∷ before) kept =
    let pair_bytes = bytes + byte_length_of_range (previous ∷ unit ∷ []) in
    let unit_bytes = bytes + byte_length_of_range (unit ∷ []) in
    let past_pair = take_last_from max_bytes pair_bytes before (previous ∷ unit ∷ kept) in
    let past_unit = take_last_from max_bytes unit_bytes (previous ∷ before) (unit ∷ kept) in
    if is_pair previous unit
    then (if ltb max_bytes pair_bytes then record { text = kept; bytes = bytes } else past_pair)
    else (if ltb max_bytes unit_bytes then record { text = kept; bytes = bytes } else past_unit)

unfoldable pub take_last_utf8_bytes : Text → ℕ → Cut
unfolding take_last_from byte_length_of_range utf8_byte_length
take_last_utf8_bytes text max_bytes =
    if max_bytes == 0
    then record { text = []; bytes = 0 }
    else if leb (utf8_byte_length text) max_bytes
    then record { text = text; bytes = utf8_byte_length text }
    else take_last_from max_bytes 0 (reverse text) []

-- The loop of `dropFirstUtf8Bytes`; its `bytes` is what was dropped.
drop_first_from : (min_bytes dropped : ℕ) → Text → Cut
drop_first_from min_bytes dropped [] = record { text = []; bytes = dropped }
drop_first_from min_bytes dropped (unit ∷ []) =
    if ltb dropped min_bytes
    then record { text = []; bytes = dropped + byte_length_of_range (unit ∷ []) }
    else record { text = unit ∷ []; bytes = dropped }
drop_first_from min_bytes dropped (unit ∷ next ∷ rest) =
    let past_pair =
      drop_first_from min_bytes (dropped + byte_length_of_range (unit ∷ next ∷ [])) rest in
    let past_unit =
      drop_first_from min_bytes (dropped + byte_length_of_range (unit ∷ [])) (next ∷ rest) in
    if ltb dropped min_bytes
    then (if is_pair unit next then past_pair else past_unit)
    else record { text = unit ∷ next ∷ rest; bytes = dropped }

unfoldable pub drop_first_utf8_bytes : Text → ℕ → Cut
unfolding drop_first_from byte_length_of_range
drop_first_utf8_bytes text min_bytes =
    if min_bytes == 0 then record { text = text; bytes = 0 } else drop_first_from min_bytes 0 text

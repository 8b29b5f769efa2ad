-- ===== src/Utf8/LongestSuffix.antt =====
-- The longest suffix within a byte limit, which the cutters of src/shared/utf8.ts agree on.
use mathlib.Core.List.{reverse_aux}
use connexin.Prelude.{
  ℕ, ◌+◌, ◌≤◌, ◌<◌, ◌≡◌, refl, ◌∙◌, Bool, true, false, inl, inr, [], ◌∷◌, arith, leb, if◌then◌else◌,
  Bool-cases, le→leb, leb-eq-false, eq-false_of_ne_true,
}
use connexin.Utf8.{Text, is_pair, byte_length_of_range}
use connexin.Utf8.Units.{byte_length-nil, byte_length-pair, byte_length-unit, is_pair_bounds}

-- The longest suffix of whole code points within the limit, by recursion from the front.
unfoldable pub longest_suffix : ℕ → Text → Text
longest_suffix max_bytes [] = []
longest_suffix max_bytes (unit ∷ []) =
    if leb (byte_length_of_range (unit ∷ [])) max_bytes then unit ∷ [] else []
longest_suffix max_bytes (unit ∷ next ∷ rest) =
    let past_pair = longest_suffix max_bytes rest in
    let past_unit = longest_suffix max_bytes (next ∷ rest) in
    if leb (byte_length_of_range (unit ∷ next ∷ rest)) max_bytes
    then unit ∷ next ∷ rest
    else if is_pair unit next
    then past_pair
    else past_unit

pub longest_suffix_nil : (max_bytes : ℕ) → longest_suffix max_bytes [] ≡ []
unfolding longest_suffix
longest_suffix_nil max_bytes = refl

pub longest_suffix_fits :
    (max_bytes : ℕ) (text : Text)
    → byte_length_of_range text ≤ max_bytes
    → longest_suffix max_bytes text ≡ text
unfolding longest_suffix
longest_suffix_fits max_bytes [] h = refl
longest_suffix_fits max_bytes (unit ∷ []) h = rw (le→leb _ _ h)
longest_suffix_fits max_bytes (unit ∷ next ∷ rest) h = rw (le→leb _ _ h)

pub longest_suffix-pair :
    (max_bytes unit next : ℕ) (rest : Text)
    → is_pair unit next ≡ true
    → max_bytes < byte_length_of_range (unit ∷ next ∷ rest)
    → longest_suffix max_bytes (unit ∷ next ∷ rest) ≡ longest_suffix max_bytes rest
unfolding longest_suffix
longest_suffix-pair max_bytes unit next rest pair h = rw (leb-eq-false _ _ h, pair)

-- Whether the first unit of the kept text completes a pair with the last unit before it.
abbrev pub cuts_pair : Text → Text → Bool
cuts_pair [] kept = false
cuts_pair (unit ∷ before) [] = false
cuts_pair (unit ∷ before) (first ∷ kept) = is_pair unit first

pub longest_suffix-unit :
    (max_bytes unit : ℕ) (kept : Text)
    → cuts_pair (unit ∷ []) kept ≡ false
    → max_bytes < byte_length_of_range (unit ∷ kept)
    → longest_suffix max_bytes (unit ∷ kept) ≡ longest_suffix max_bytes kept
unfolding longest_suffix
longest_suffix-unit max_bytes unit [] single h = rw (leb-eq-false _ _ h)
longest_suffix-unit max_bytes unit (next ∷ rest) single h = rw (leb-eq-false _ _ h, single)

pub byte_length-cons :
    (unit : ℕ) (kept : Text)
    → cuts_pair (unit ∷ []) kept ≡ false
    → byte_length_of_range (unit ∷ kept)
      ≡ byte_length_of_range (unit ∷ []) + byte_length_of_range kept
byte_length-cons unit [] single = omega (arith, byte_length-nil)
byte_length-cons unit (next ∷ rest) single = byte_length-unit unit next rest single

-- A low surrogate is not a high one.
pub pair_apart :
    (before : Text) (previous unit : ℕ) (kept : Text)
    → is_pair previous unit ≡ true
    → cuts_pair before (previous ∷ unit ∷ kept) ≡ false
pair_apart [] previous unit kept h = refl
pair_apart (u ∷ before) previous unit kept h = eq-false_of_ne_true _ λ again.
    let (_, below, _, _) = is_pair_bounds previous unit h in
    let (_, _, above, _) = is_pair_bounds u previous again in absurd (omega arith)

pub single_head :
    (unit : ℕ) (before kept : Text)
    → cuts_pair (unit ∷ before) kept ≡ false
    → cuts_pair (unit ∷ []) kept ≡ false
single_head unit before [] h = h
single_head unit before (first ∷ kept) h = h

-- Text that stands before what is too long already is passed over.
pub longest_suffix-skip :
    (max_bytes : ℕ) (before kept : Text)
    → cuts_pair before kept ≡ false
    → max_bytes < byte_length_of_range kept
    → longest_suffix max_bytes (reverse_aux before kept) ≡ longest_suffix max_bytes kept
longest_suffix-skip max_bytes [] kept apart h = refl
longest_suffix-skip max_bytes (unit ∷ []) kept apart h =
    longest_suffix-unit max_bytes unit kept (single_head unit [] kept apart)
      (omega (arith, byte_length-cons unit kept (single_head unit [] kept apart)))
longest_suffix-skip max_bytes (unit ∷ previous ∷ before) kept apart h =
    let single = single_head unit (previous ∷ before) kept apart in
    let longer : max_bytes < byte_length_of_range (unit ∷ kept) =
      omega (arith, byte_length-cons unit kept single) in
    elim (Bool-cases (is_pair previous unit)) [
      | inl pair ↦
          let longest : max_bytes < byte_length_of_range (previous ∷ unit ∷ kept) =
            omega (arith, byte_length-pair previous unit kept pair) in
          longest_suffix-skip max_bytes before (previous ∷ unit ∷ kept)
            (pair_apart before previous unit kept pair) longest
          ∙ longest_suffix-pair max_bytes previous unit kept pair longest
      | inr lone ↦
          longest_suffix-skip max_bytes (previous ∷ before) (unit ∷ kept) lone longer
          ∙ longest_suffix-unit max_bytes unit kept single longer
    ]

pub uncut : (before : Text) → cuts_pair before [] ≡ false
uncut [] = refl
uncut (unit ∷ before) = refl

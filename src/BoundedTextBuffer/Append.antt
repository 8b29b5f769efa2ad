-- ===== src/BoundedTextBuffer/Append.antt =====
-- What `append` of src/shared/bounded-text-buffer.ts keeps and loses.
use connexin.Prelude.{
  ℕ, suc, ◌+◌, ◌*◌, ◌≤◌, ◌<◌, if◌then◌else◌, Bool, Bool-cases, leb, leb→le, leb-false→lt, ◌≡◌, refl,
  sym, ap, ◌∙◌, ◌⊎◌, inl, inr, List, [], ◌∷◌, ◌++◌, map, arith, length, flatten, length-append,
  drop-append, flatten-append, append-nil,
}
use connexin.Utf8.{Text, utf8_byte_length, byte_length_of_range}
use connexin.Utf8.Units.{joins_pair, saved, byte_length-append, byte_length-nil}
use connexin.BoundedTextBuffer.{
  BoundedTextBuffer, new_buffer, byte_length, to_string, trim, push_chunk, append,
}
use connexin.BoundedTextBuffer.LiveChunks.{
  live, size, trim_live, trim_live_within, trim_live_fits, trim_live-Keeps,
}
use connexin.BoundedTextBuffer.Trimming.{IsAccurate, trim_from-live}

-- Accurate, and within the limit.
pub record IsValid (b : BoundedTextBuffer) : Type 0 where
  pub accurate : IsAccurate b
  pub within : b.total_bytes ≤ b.max_bytes

pub new_buffer-IsValid : (max_bytes : ℕ) → IsValid (new_buffer max_bytes)
unfolding new_buffer
new_buffer-IsValid max_bytes = record {
  accurate = record { cached = refl; inside = omega arith; total = refl };
  within = omega arith;
}

size-append : (xs ys : List Text) → size (xs ++ ys) ≡ size xs + size ys
size-append [] ys = omega arith
size-append (x ∷ xs) ys = omega (arith, size-append xs ys)

-- The pairs of surrogates whose halves stand in two chunks.
abbrev pub split_pairs : List Text → ℕ
split_pairs [] = 0
split_pairs (x ∷ xs) = (if joins_pair x (flatten xs) then 1 else 0) + split_pairs xs

-- The bytes counted are the bytes of the text, and two more for each pair that is split.
size-flatten : (xs : List Text) → size xs ≡ utf8_byte_length (flatten xs) + 2 * split_pairs xs
unfolding utf8_byte_length
size-flatten [] = omega (arith, byte_length-nil)
size-flatten (x ∷ xs) = elim (Bool-cases (joins_pair x (flatten xs))) [
  | inl joins ↦ rw (joins) (omega (arith, size-flatten xs, joined joins))
  | inr apart ↦ rw (apart) (omega (arith, size-flatten xs, joined apart))
]
  where
    joined :
        {joins : Bool}
        → joins_pair x (flatten xs) ≡ joins
        → byte_length_of_range (x ++ flatten xs) + saved joins
          ≡ byte_length_of_range x + byte_length_of_range (flatten xs)
    joined e = rw (sym e) (byte_length-append x (flatten xs))

map-snoc :
    (xs : List Text) (x : Text)
    → map utf8_byte_length (xs ++ x ∷ []) ≡ map utf8_byte_length xs ++ utf8_byte_length x ∷ []
map-snoc [] x = refl
map-snoc (y ∷ ys) x = ap (◌∷◌ (utf8_byte_length y)) (map-snoc ys x)

module _ (b : BoundedTextBuffer) (v : IsAccurate b) (chunk : Text) where
  pushed : BoundedTextBuffer
  pushed = record b {
    chunks = b.chunks ++ chunk ∷ [];
    chunk_bytes = b.chunk_bytes ++ utf8_byte_length chunk ∷ [];
    total_bytes = b.total_bytes + utf8_byte_length chunk;
  }

  live-pushed : live pushed ≡ live b ++ chunk ∷ []
  unfolding pushed
  live-pushed = drop-append b.first_chunk b.chunks (chunk ∷ []) v.inside

  pushed-IsAccurate : IsAccurate pushed
  unfolding pushed
  pushed-IsAccurate = record {
    cached = ap (λ l. l ++ utf8_byte_length chunk ∷ []) v.cached ∙ sym (map-snoc b.chunks chunk);
    inside = omega (arith, v.inside, length-append b.chunks (chunk ∷ []));
    total = omega (arith, v.total, ap size live-pushed, size-append (live b) (chunk ∷ []));
  }

  push_chunk_lem :
      IsAccurate (push_chunk b chunk)
      × (live (push_chunk b chunk) ≡ trim_live b.max_bytes (live b ++ chunk ∷ []))
      × ((push_chunk b chunk).max_bytes ≡ b.max_bytes)
  unfolding push_chunk trim pushed
  push_chunk_lem =
      let (w, l, m) =
        trim_from-live (suc (length pushed.chunks)) pushed pushed-IsAccurate (omega arith) in
      (w, l ∙ ap (trim_live b.max_bytes) live-pushed, m)

flatten-snoc : (xs : List Text) (x : Text) → flatten (xs ++ x ∷ []) ≡ flatten xs ++ x
flatten-snoc xs x = flatten-append xs (x ∷ []) ∙ ap (◌++◌ (flatten xs)) (append-nil x)

-- What `append` promises of the text before and after.
pub record Appends (b : BoundedTextBuffer) (chunk : Text) (c : BoundedTextBuffer) : Type 0 where
  pub valid : IsValid c
  pub limit : c.max_bytes ≡ b.max_bytes
  pub gone : Text
  pub suffix : to_string b ++ chunk ≡ gone ++ to_string c
  pub counted : byte_length c ≡ utf8_byte_length (to_string c) + 2 * split_pairs (live c)
  pub bounded : byte_length c ≤ b.max_bytes
  pub tight :
      (to_string c ≡ to_string b ++ chunk)
      ⊎ ((b.max_bytes < byte_length b + utf8_byte_length chunk) × (b.max_bytes < byte_length c + 4))

push_chunk-Appends :
    (b : BoundedTextBuffer) (chunk : Text) → IsAccurate b → Appends b chunk (push_chunk b chunk)
unfolding to_string
push_chunk-Appends b chunk v =
    let (w, l, m) = push_chunk_lem b v chunk in
    let ((gone, e), tight) = trim_live-Keeps b.max_bytes (live b ++ chunk ∷ []) in
    let joined = flatten-snoc (live b) chunk in
    let c = push_chunk b chunk in
    let small : c.total_bytes ≤ b.max_bytes =
      omega (arith, w.total, ap size l, trim_live_within b.max_bytes (live b ++ chunk ∷ [])) in
    record {
      valid = record { accurate = w; within = omega (arith, m) };
      limit = m;
      gone = gone;
      suffix = sym joined ∙ e ∙ ap (λ t. gone ++ flatten t) (sym l);
      counted = omega (arith, size-flatten (live c), w.total);
      bounded = small;
      tight = elim (Bool-cases (leb (size (live b ++ chunk ∷ [])) b.max_bytes)) [
        | inl fits ↦ inl (
            ap flatten (l ∙ trim_live_fits b.max_bytes (live b ++ chunk ∷ []) (leb→le _ _ fits))
            ∙ joined)
        | inr over ↦ elim tight [
          | inl same ↦ inl (ap flatten (l ∙ same) ∙ joined)
          | inr full ↦ inr (
            omega (arith, leb-false→lt _ _ over, v.total, size-append (live b) (chunk ∷ [])),
            omega (arith, w.total, ap size l),
          )
        ]
      ];
    }

-- Appending to a valid buffer gives a valid buffer whose text is a suffix of the old text with the
-- chunk behind it. Its `byteLength`, which is at most `max_bytes`, is the UTF-8 length of that text
-- and two more for each surrogate pair whose halves stand in two chunks: a half counts three, a
-- pair four. Text is lost only where the old `byteLength` and the chunk's bytes exceed `max_bytes`,
-- and then fewer than four of the limit's bytes are left over `byteLength`.
pub append-Appends :
    (b : BoundedTextBuffer) (chunk : Text) → IsValid b → Appends b chunk (append b chunk)
unfolding append to_string
append-Appends b [] v = record {
  valid = v;
  limit = refl;
  gone = [];
  suffix = append-nil _;
  counted = omega (arith, size-flatten (live b), v.accurate.total);
  bounded = v.within;
  tight = inl (sym (append-nil _));
}
append-Appends b (unit ∷ rest) v = push_chunk-Appends b (unit ∷ rest) v.accurate

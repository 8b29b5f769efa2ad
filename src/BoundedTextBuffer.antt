-- ===== src/BoundedTextBuffer.antt =====
-- src/shared/bounded-text-buffer.ts: the byte-bounded ring of text chunks that keeps a terminal's
-- scrollback on the server and in the app.
pub mod LiveChunks
pub mod Trimming
pub mod Append
use connexin.Prelude.{
  ℕ, zero, suc, ◌+◌, ◌-◌, ◌*◌, ◌&&◌, ◌||◌, List, [], ◌∷◌, ◌++◌, ltb, leb, if◌then◌else◌, length,
  drop, get_or, set, flatten,
}
use connexin.Utf8.{Text, utf8_byte_length, drop_first_utf8_bytes}

pub record BoundedTextBuffer : Type 0 where
  pub chunks : List Text
  pub chunk_bytes : List ℕ
  pub first_chunk : ℕ
  pub total_bytes : ℕ
  pub max_bytes : ℕ

unfoldable pub new_buffer : ℕ → BoundedTextBuffer
new_buffer max_bytes = record {
  chunks = [];
  chunk_bytes = [];
  first_chunk = 0;
  total_bytes = 0;
  max_bytes = max_bytes;
}

-- `get byteLength()`.
abbrev pub byte_length : BoundedTextBuffer → ℕ
byte_length b = b.total_bytes

unfoldable pub to_string : BoundedTextBuffer → Text
to_string b = flatten (drop b.first_chunk b.chunks)

pub clear : BoundedTextBuffer → BoundedTextBuffer
clear b = record b { chunks = []; chunk_bytes = []; first_chunk = 0; total_bytes = 0 }

compact_if_needed : BoundedTextBuffer → BoundedTextBuffer
compact_if_needed b =
    if ltb b.first_chunk 64 || ltb (b.first_chunk * 2) (length b.chunks) then b else record b {
      chunks = drop b.first_chunk b.chunks;
      chunk_bytes = drop b.first_chunk b.chunk_bytes;
      first_chunk = 0;
    }

-- The head chunk goes whole, and the loop continues.
drop_chunk : BoundedTextBuffer → BoundedTextBuffer
unfolding compact_if_needed
drop_chunk b = compact_if_needed (record b {
  first_chunk = b.first_chunk + 1;
  total_bytes = b.total_bytes - get_or b.chunk_bytes b.first_chunk 0;
})

-- The head chunk loses the overflow, and the loop breaks.
trim_chunk : BoundedTextBuffer → BoundedTextBuffer
trim_chunk b =
    let first_bytes = get_or b.chunk_bytes b.first_chunk 0 in
    let overflow = b.total_bytes - b.max_bytes in
    let dropped = drop_first_utf8_bytes (get_or b.chunks b.first_chunk []) overflow in
    record b {
      chunks = set b.chunks b.first_chunk dropped.text;
      chunk_bytes = set b.chunk_bytes b.first_chunk (first_bytes - dropped.bytes);
      total_bytes = b.total_bytes - dropped.bytes;
    }

-- The `while` loop of `trim`.
pub trim_from : ℕ → BoundedTextBuffer → BoundedTextBuffer
trim_from zero b = b
trim_from (suc fuel) b =
    let next = trim_from fuel (drop_chunk b) in
    if ltb b.max_bytes b.total_bytes && ltb b.first_chunk (length b.chunks)
    then (if leb (get_or b.chunk_bytes b.first_chunk 0) (b.total_bytes - b.max_bytes)
        then next
        else trim_chunk b)
    else b

-- Each round but the last passes over one chunk.
trim : BoundedTextBuffer → BoundedTextBuffer
unfolding trim_from drop_chunk trim_chunk
trim b = trim_from (suc (length b.chunks)) b

-- The rest of `append`, for a chunk that is not empty.
push_chunk : BoundedTextBuffer → Text → BoundedTextBuffer
unfolding trim
push_chunk b chunk =
    let bytes = utf8_byte_length chunk in
    trim (record b {
      chunks = b.chunks ++ chunk ∷ [];
      chunk_bytes = b.chunk_bytes ++ bytes ∷ [];
      total_bytes = b.total_bytes + bytes;
    })

unfoldable pub append : BoundedTextBuffer → Text → BoundedTextBuffer
unfolding push_chunk
append b [] = b
append b (unit ∷ rest) = push_chunk b (unit ∷ rest)

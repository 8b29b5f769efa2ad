-- ===== src/Tests/Texts.antt =====
-- The theorems on texts, buffers and device names at concrete inputs.
use connexin.Prelude.{
  ◌≡◌, ◌≤◌, ◌<◌, ◌↔◌, ◌⊎◌, refl, ◌+◌, ◌-◌, [], ◌∷◌, ◌++◌, some, arith, length, All, codes,
}
use connexin.Utf8.{
  Text, utf8_byte_length, take_first_utf8_bytes, take_last_utf8_bytes, drop_first_utf8_bytes,
}
use connexin.Utf8.Agreement.{take_last-drop_first}
use connexin.Utf8.Encoding.{utf8_byte_length-encode, text_encoder_encode}
use connexin.Utf8.Cuts.{drop_first_utf8_bytes_parts, take_first_utf8_bytes_parts}
use connexin.BoundedTextBuffer.{BoundedTextBuffer, new_buffer, append, trim_from}
use connexin.BoundedTextBuffer.LiveChunks.{live, size, trim_live}
use connexin.BoundedTextBuffer.Trimming.{IsAccurate, trim_from-live}
use connexin.BoundedTextBuffer.Append.{Appends, new_buffer-IsValid, append-Appends}
use connexin.Device.{valid_device, validate_device, sanitize_suggested_command}
use connexin.Device.Checks.{
  IsSafeDevice, IsPlain, validate_device_iff, sanitize_suggested_command_safe,
}
use connexin.Tests.{smile}

take_last-drop_first_example :
    let c = take_last_utf8_bytes smile 4 in
    (c.text ≡ (drop_first_utf8_bytes smile (utf8_byte_length smile - 4)).text)
    × (c.bytes ≡ utf8_byte_length c.text)
    × (c.bytes ≤ 4)
take_last-drop_first_example = take_last-drop_first smile 4

utf8_byte_length-encode_example : utf8_byte_length smile ≡ length (text_encoder_encode smile)
utf8_byte_length-encode_example =
    utf8_byte_length-encode smile (omega arith, (omega arith, (omega arith, (omega arith, tt))))

drop_first_utf8_bytes_parts_example :
    let c = drop_first_utf8_bytes smile 2 in
    ((prefix : Text) × (smile ≡ prefix ++ c.text))
    × (utf8_byte_length smile ≡ c.bytes + utf8_byte_length c.text)
    × ((utf8_byte_length smile < 2) ⊎ (2 ≤ c.bytes))
    × (c.bytes < 2 + 4)
drop_first_utf8_bytes_parts_example = drop_first_utf8_bytes_parts smile 2

take_first_utf8_bytes_parts_example :
    let c = take_first_utf8_bytes smile 3 in
    ((suffix : Text) × (smile ≡ c.text ++ suffix))
    × (c.bytes ≡ utf8_byte_length c.text)
    × (c.bytes ≤ 3)
    × ((smile ≡ c.text) ⊎ (3 < c.bytes + 4))
take_first_utf8_bytes_parts_example = take_first_utf8_bytes_parts smile 3

append-Appends_example : Appends (new_buffer 4) smile (append (new_buffer 4) smile)
append-Appends_example = append-Appends (new_buffer 4) smile (new_buffer-IsValid 4)

-- Two chunks, together over the limit.
abbrev full_buffer : BoundedTextBuffer
full_buffer = record {
  chunks = codes "abc" ∷ smile ∷ [];
  chunk_bytes = 3 ∷ 6 ∷ [];
  first_chunk = 0;
  total_bytes = 9;
  max_bytes = 5;
}

full_buffer-IsAccurate : IsAccurate full_buffer
unfolding utf8_byte_length size live
full_buffer-IsAccurate = record { cached = refl; inside = omega arith; total = refl }

trim_from-live_example :
    let c = trim_from 3 full_buffer in
    IsAccurate c × (live c ≡ trim_live 5 (live full_buffer)) × (c.max_bytes ≡ 5)
trim_from-live_example = trim_from-live 3 full_buffer full_buffer-IsAccurate (omega arith)

validate_device_iff_example :
    (validate_device (codes "nas") (codes "nas" ∷ []) 64 ≡ valid_device (codes "nas"))
    ↔ ((codes "nas" ≡ codes "nas") × IsSafeDevice (codes "nas" ∷ []) 64 (codes "nas"))
validate_device_iff_example = validate_device_iff (codes "nas") (codes "nas" ∷ []) 64 (codes "nas")

kept_command : sanitize_suggested_command (some (codes " ls ")) 9 ≡ some (codes "ls")
unfolding sanitize_suggested_command
kept_command = refl

sanitize_suggested_command_safe_example :
    (0 < length (codes "ls")) × (length (codes "ls") ≤ 9) × All IsPlain (codes "ls")
sanitize_suggested_command_safe_example =
    sanitize_suggested_command_safe (some (codes " ls ")) 9 (codes "ls") kept_command

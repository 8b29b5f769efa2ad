-- ===== src/FileSession/Entry.antt =====
-- The metadata of a remote file in src/server/file-session.ts, and its fingerprint.
use connexin.Prelude.{
  ℕ, zero, suc, ◌+◌, ◌/◌, ◌%◌, Bool, ◌&&◌, List, [], ◌∷◌, ◌++◌, ltb, if◌then◌else◌, codes, has_text,
}
use connexin.Utf8.{Text}
use connexin.Numbers.{JsNumber, natural, minus_suc, no_safe_integer, is_safe_integer, is_natural}

pub record RemoteFileEntry : Type 0 where
  pub name : Text
  -- `"file" | "directory" | "symlink" | "other"`, if the helper keeps to the protocol.
  pub kind : Text
  pub size : JsNumber
  pub modified : JsNumber
  pub mode : JsNumber

abbrev file_kinds : List Text
file_kinds = codes "file" ∷ codes "directory" ∷ codes "symlink" ∷ codes "other" ∷ []

-- Whether `assertSafeEntry` returns.
unfoldable pub is_safe_entry : RemoteFileEntry → Bool
is_safe_entry e =
    has_text e.kind file_kinds
    && is_natural e.size
    && is_safe_integer e.modified
    && is_safe_integer e.mode

-- The decimal digits of a number, before those that are there already.
digits : (fuel n : ℕ) → Text → Text
digits zero n after = after
digits (suc fuel) n after =
    let shown = (b'0' + n % 10) ∷ after in
    let more = digits fuel (n / 10) shown in if ltb n 10 then shown else more

-- A number in a template literal; halving at least, it has fewer digits than its value.
unfoldable pub number_text : JsNumber → Text
unfolding digits
number_text (natural n) = digits (suc n) n []
number_text (minus_suc n) = b'-' ∷ digits (suc (suc n)) (suc n) []
number_text no_safe_integer = codes "NaN"

-- What is hashed, and the digest by `hash`, which is SHA-256 in base64url.
unfoldable pub fingerprint : (Text → Text) → RemoteFileEntry → Text
unfolding number_text
fingerprint hash e =
    hash
      (e.kind ++ 0 ∷ (number_text e.size ++ 0 ∷ (number_text e.modified ++ 0 ∷ number_text e.mode)))

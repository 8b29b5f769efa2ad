-- ===== src/Toml.antt =====
-- What src/server/device-metadata.ts and src/server/config.ts share in reading connexin.toml.
use connexin.Prelude.{
  ℕ, Bool, true, false, not, ◌&&◌, [], ◌∷◌, Option, none, some, ◌==◌, if◌then◌else◌,
}
use connexin.Utf8.{Text}

-- The loop of `stripComment` and of `stripTomlComment`, with the unit before, 0 at the start.
unfoldable pub strip_comment_from : (quoted : Bool) (before : ℕ) → Text → Text
strip_comment_from quoted before [] = []
strip_comment_from quoted before (c ∷ rest) =
    let now = if (c == b'"') && not (before == 0x5c) then not quoted else quoted in
    let kept = strip_comment_from now c rest in if not now && (c == b'#') then [] else c ∷ kept

unfoldable pub strip_comment : Text → Text
unfolding strip_comment_from
strip_comment line = strip_comment_from false 0 line

-- `indexOf("=")`, with the parts before and behind.
unfoldable pub split_equals : Text → Option (Text × Text)
split_equals [] = none
split_equals (c ∷ rest) = elim (c == b'=') [
  | true ↦ some ([], rest)
  | false ↦ elim (split_equals rest) [ none ↦ none | some (key, value) ↦ some (c ∷ key, value) ]
]

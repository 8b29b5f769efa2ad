-- ===== src/DeviceMetadata/Lines.antt =====
-- Lines of connexin.toml that are written with `quoted`, and what one step of the parser of
-- src/server/device-metadata.ts makes of each.
use mathlib.Core.List.{reverse-reverse, reverse-append}
use connexin.Prelude.{
  take-length, ℕ, ◌-◌, ◌≡◌, refl, sym, ap, ◌∙◌, true, false, [], ◌∷◌, ◌++◌, arith, reverse,
  if◌then◌else◌, All, length, length-append, take, is_space, trim_start, trim_text, starts_with,
  ends_with, ==_iff,
}
use connexin.Utf8.{Text}
use connexin.SshConfig.Tokens.{push_unit, split_lines}
use connexin.DeviceMetadata.Quoted.{InLine}

split_lines_unit :
    (c d : ℕ) (rest : Text)
    → InLine c
    → split_lines (c ∷ d ∷ rest) ≡ push_unit c (split_lines (d ∷ rest))
unfolding split_lines
split_lines_unit c d rest (no_feed, no_return) = rw (no_feed, no_return) refl

pub split_lines-line :
    (line rest : Text)
    → All InLine line
    → split_lines (line ++ 0x0a ∷ rest) ≡ line ∷ split_lines rest
unfolding split_lines push_unit
split_lines-line [] [] h = refl
split_lines-line [] (d ∷ rest) h = refl
split_lines-line (c ∷ []) rest (h, hs) =
    split_lines_unit c 0x0a rest h ∙ ap (push_unit c) (split_lines-line [] rest tt)
split_lines-line (c ∷ d ∷ line) rest (h, hs) =
    split_lines_unit c d (line ++ 0x0a ∷ rest) h
    ∙ ap (push_unit c) (split_lines-line (d ∷ line) rest hs)

-- `trim` leaves a text with such ends as it is.
pub trim_ends :
    (c d : ℕ) (middle : Text)
    → is_space c ≡ false
    → is_space d ≡ false
    → trim_text (c ∷ (middle ++ d ∷ [])) ≡ c ∷ (middle ++ d ∷ [])
trim_ends c d middle hc hd =
    let text = c ∷ (middle ++ d ∷ []) in
    let turned : reverse text ≡ d ∷ reverse (c ∷ middle) = reverse-append (c ∷ middle) (d ∷ []) in
    ap (λ b. reverse (trim_start (reverse (if b then trim_start (middle ++ d ∷ []) else text)))) hc
    ∙ ap (λ t. reverse (trim_start t)) turned
    ∙ ap (λ b. reverse (if b then trim_start (reverse (c ∷ middle)) else d ∷ reverse (c ∷ middle)))
        hd
    ∙ ap reverse (sym turned)
    ∙ reverse-reverse text

starts_with-append : (xs ys : Text) → starts_with (xs ++ ys) xs ≡ true
starts_with-append [] ys = refl
starts_with-append (x ∷ xs) ys = rw ((==_iff x x).1 refl) (starts_with-append xs ys)

pub ends_with-append : (xs ys : Text) → ends_with (xs ++ ys) ys ≡ true
ends_with-append xs ys =
    ap (λ t. starts_with t (reverse ys)) (reverse-append xs ys)
    ∙ starts_with-append (reverse ys) (reverse xs)

-- `slice(0, -1)`.
pub take-but_last : (xs : Text) (d : ℕ) → take (length (xs ++ d ∷ []) - 1) (xs ++ d ∷ []) ≡ xs
take-but_last xs d =
    let count : length (xs ++ d ∷ []) - 1 ≡ length xs = omega (arith, length-append xs (d ∷ [])) in
    ap (λ n. take n (xs ++ d ∷ [])) count ∙ take-length xs (d ∷ [])

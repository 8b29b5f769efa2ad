-- ===== src/Prelude/Texts.antt =====
-- Strings of UTF-16 code units: what the program uses of `String.prototype`, and its literals.
use Prim.Native.Nat.{ℕ, ◌+◌}
use Prim.Native.Char.{code}
use Prim.Native.String.{String}
use mathlib.Core.Path.{◌≡◌, refl, ap₂}
use mathlib.Core.Bool.{Bool, true, false, ◌&&◌, ◌||◌}
use mathlib.Core.List.{List, [], ◌∷◌, reverse}
use native.Mathlib.Omega.{arith}
use connexin.Prelude.Tests.{◌==◌, leb, if◌then◌else◌, ==_iff, and-eq-true}

-- The code units of an ASCII literal.
abbrev pub codes : String → List ℕ
codes String.[] = []
codes (String.◌∷◌ c s) = code c ∷ codes s

-- `===` on strings.
abbrev pub text_eq : List ℕ → List ℕ → Bool
text_eq [] [] = true
text_eq [] (y ∷ ys) = false
text_eq (x ∷ xs) [] = false
text_eq (x ∷ xs) (y ∷ ys) = (x == y) && text_eq xs ys

pub text_eq_refl : (xs : List ℕ) → text_eq xs xs ≡ true
text_eq_refl [] = refl
text_eq_refl (x ∷ xs) = ground (arith, text_eq_refl xs)

pub text_eq→eq : (xs ys : List ℕ) → text_eq xs ys ≡ true → xs ≡ ys
text_eq→eq [] [] h = refl
text_eq→eq [] (y ∷ ys) h = cc
text_eq→eq (x ∷ xs) [] h = cc
text_eq→eq (x ∷ xs) (y ∷ ys) h =
    let (a, b) = and-eq-true (x == y) (text_eq xs ys) h in
    ap₂ ◌∷◌ ((==_iff x y).0 a) (text_eq→eq xs ys b)

pub text_eq_sym : (xs ys : List ℕ) → text_eq xs ys ≡ text_eq ys xs
text_eq_sym [] [] = refl
text_eq_sym [] (y ∷ ys) = refl
text_eq_sym (x ∷ xs) [] = refl
text_eq_sym (x ∷ xs) (y ∷ ys) = ground (arith, text_eq_sym xs ys)

-- `haystack.startsWith(needle)`.
abbrev pub starts_with : List ℕ → List ℕ → Bool
starts_with xs [] = true
starts_with [] (n ∷ ns) = false
starts_with (x ∷ xs) (n ∷ ns) = (x == n) && starts_with xs ns

-- `text.endsWith(suffix)`.
abbrev pub ends_with : List ℕ → List ℕ → Bool
ends_with text suffix = starts_with (reverse text) (reverse suffix)

-- `haystack.includes(needle)`.
abbrev pub includes : List ℕ → List ℕ → Bool
includes [] needle = starts_with [] needle
includes (x ∷ xs) needle = starts_with (x ∷ xs) needle || includes xs needle

-- Whether a code unit stands in the text.
abbrev pub has_unit : ℕ → List ℕ → Bool
has_unit u [] = false
has_unit u (x ∷ xs) = (x == u) || has_unit u xs

-- Whether a text stands in an array or a set of texts.
abbrev pub has_text : List ℕ → List (List ℕ) → Bool
has_text t [] = false
has_text t (x ∷ xs) = text_eq x t || has_text t xs

-- The white space and line ends of `\s` and of `trim`.
abbrev pub is_space : ℕ → Bool
is_space c =
    (leb 9 c && leb c 13)
    || (c == 0x20)
    || (c == 0xa0)
    || (c == 0x1680)
    || (leb 0x2000 c && leb c 0x200a)
    || (c == 0x2028)
    || (c == 0x2029)
    || (c == 0x202f)
    || (c == 0x205f)
    || (c == 0x3000)
    || (c == 0xfeff)

-- [\u0000-\u001f\u007f].
abbrev pub is_control : ℕ → Bool
is_control c = leb c 0x1f || (c == 0x7f)

abbrev pub trim_start : List ℕ → List ℕ
trim_start [] = []
trim_start (x ∷ xs) = if is_space x then trim_start xs else x ∷ xs

abbrev pub trim_text : List ℕ → List ℕ
trim_text xs = reverse (trim_start (reverse (trim_start xs)))

-- The case folding of a regular expression with flag `i` and no flag `u`, for ASCII patterns.
abbrev pub ascii_lower : ℕ → ℕ
ascii_lower c = if leb b'A' c && leb c b'Z' then c + 32 else c

-- ===== src/Numbers.antt =====
-- Numbers of JavaScript as the program takes them from outside: in the messages of the helper
-- (src/server/file-session.ts) and in settings (src/server/config.ts).
use connexin.Prelude.{ℕ, Bool, true, false, ◌==◌, ltb}

-- An integer that is safe, or any other value.
pub data JsNumber : Type 0 where
  natural : ℕ → JsNumber
  -- The integer below zero whose absolute value is one more.
  minus_suc : ℕ → JsNumber
  no_safe_integer : JsNumber

abbrev pub is_safe_integer : JsNumber → Bool
is_safe_integer (natural n) = true
is_safe_integer (minus_suc n) = true
is_safe_integer no_safe_integer = false

abbrev pub is_natural : JsNumber → Bool
is_natural (natural n) = true
is_natural (minus_suc n) = false
is_natural no_safe_integer = false

-- `===`; numbers that are not safe integers are compared nowhere.
abbrev pub js_eq : JsNumber → JsNumber → Bool
js_eq (natural n) (natural m) = n == m
js_eq (minus_suc n) (minus_suc m) = n == m
js_eq a b = false

-- Whether a natural number is greater than the limit.
abbrev pub exceeds : JsNumber → ℕ → Bool
exceeds (natural n) limit = ltb limit n
exceeds (minus_suc n) limit = false
exceeds no_safe_integer limit = false

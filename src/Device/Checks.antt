-- ===== src/Device/Checks.antt =====
-- What src/server/device.ts guarantees of a device name that it lets through.
use connexin.Prelude.{
  ℕ, ◌∙◌, ◌↔◌, ap, Option, none, some, reverse, take, trim_start, trim_text, ltb-eq-false, ltb→lt,
  All-reverse, length-reverse, length-take-le, ◌≤◌, ◌<◌, ◌≡◌, refl, Bool, true, false, ◌||◌, List,
  [], ◌∷◌, inl, inr, arith, ltb, ◌==◌, Bool-cases, any, All, length, starts_with, has_text,
  is_space, is_control, ltb-false→le,
}
use connexin.Utf8.{Text}
use connexin.Device.{
  DeviceError, replace_runs, sanitize_suggested_command, valid_device, device_error,
  validate_device,
}

-- Usable as one argument of `ssh`: not empty, no option, no white space and no control character.
pub record IsSafeDevice (allowed_hosts : List Text) (max_device_length : ℕ) (device : Text)
    : Type 0 where
  pub nonempty : 0 < length device
  pub short : length device ≤ max_device_length
  pub no_option : starts_with device (b'-' ∷ []) ≡ false
  pub plain : any (λ c. is_space c || is_control c) device ≡ false
  pub listed : has_text device allowed_hosts ≡ true

validate_device_sound :
    (target : Text) (hosts : List Text) (most : ℕ) (device : Text)
    → validate_device target hosts most ≡ valid_device device
    → (target ≡ device) × IsSafeDevice hosts most target
unfolding validate_device
validate_device_sound target hosts most device e = elim (Bool-cases (length target == 0)) [
  | inl a ↦ absurd (refuse (rw (a) at e))
  | inr a ↦ elim (Bool-cases (ltb most (length target))) [
    | inl b ↦ absurd (refuse (rw (a, b) at e))
    | inr b ↦ elim (Bool-cases (starts_with target (b'-' ∷ []))) [
      | inl c ↦ absurd (refuse (rw (a, b, c) at e))
      | inr c ↦ elim (Bool-cases (any (λ u. is_space u || is_control u) target)) [
        | inl d ↦ absurd (refuse (rw (a, b, c, d) at e))
        | inr d ↦ elim (Bool-cases (has_text target hosts)) [
          | inr f ↦ absurd (refuse (rw (a, b, c, d, f) at e))
          | inl f ↦ (
            same_device (rw (a, b, c, d, f) at e),
            record {
              nonempty = ground arith;
              short = ltb-false→le _ _ b;
              no_option = c;
              plain = d;
              listed = f;
            },
          )
        ]
      ]
    ]
  ]
]
  where
    refuse : {x : DeviceError} → device_error x ≡ valid_device device → ⊥
    refuse h = cc

    same_device : valid_device target ≡ valid_device device → target ≡ device
    same_device h = cc

validate_device_complete :
    (target : Text) (hosts : List Text) (most : ℕ)
    → IsSafeDevice hosts most target
    → validate_device target hosts most ≡ valid_device target
unfolding validate_device
validate_device_complete target hosts most s =
    let nonzero : (length target == 0) ≡ false = ground (arith, s.nonempty) in
    rw (nonzero, ltb-eq-false _ _ s.short, s.no_option, s.plain, s.listed)

-- `validateDevice` lets a name through, unchanged, exactly when it is not empty, not too long, no
-- option, free of white space and control characters, and listed in the SSH configuration.
pub validate_device_iff :
    (target : Text) (hosts : List Text) (most : ℕ) (device : Text)
    → (validate_device target hosts most ≡ valid_device device)
      ↔ ((target ≡ device) × IsSafeDevice hosts most target)
validate_device_iff target hosts most device = (
  validate_device_sound target hosts most device,
  λ h. validate_device_complete target hosts most h.1 ∙ ap valid_device h.0,
)

-- No control character.
abbrev pub IsPlain : ℕ → Type 0
IsPlain c = is_control c ≡ false

-- Replacing keeps what holds of a space and of every unit.
replace_runs-All :
    (P : ℕ → Type 0) (matches : ℕ → Bool) (in_run : Bool) (xs : Text)
    → P 0x20
    → All P xs
    → All P (replace_runs matches in_run xs)
unfolding replace_runs
replace_runs-All P matches in_run [] space h = tt
replace_runs-All P matches in_run (c ∷ xs) space h = elim (Bool-cases (matches c)) [
  | inr other ↦ rw (other) (h.0, replace_runs-All P matches false xs space h.1)
  | inl hit ↦ elim (Bool-cases in_run) [
    | inl inside ↦ rw (hit, inside) (replace_runs-All P matches true xs space h.1)
    | inr fresh ↦ rw (hit, fresh) (space, replace_runs-All P matches true xs space h.1)
  ]
]

-- After replacing the control characters none is left.
replace_runs-control : (in_run : Bool) (xs : Text) → All IsPlain (replace_runs is_control in_run xs)
unfolding replace_runs
replace_runs-control in_run [] = tt
replace_runs-control in_run (c ∷ xs) = elim (Bool-cases (is_control c)) [
  | inr other ↦ rw (other) (other, replace_runs-control false xs)
  | inl hit ↦ elim (Bool-cases in_run) [
    | inl inside ↦ rw (hit, inside) (replace_runs-control true xs)
    | inr fresh ↦ rw (hit, fresh) (refl, replace_runs-control true xs)
  ]
]

length-replace_runs :
    (matches : ℕ → Bool) (in_run : Bool) (xs : Text)
    → length (replace_runs matches in_run xs) ≤ length xs
unfolding replace_runs
length-replace_runs matches in_run [] = omega arith
length-replace_runs matches in_run (c ∷ xs) =
    ground (arith, length-replace_runs matches true xs, length-replace_runs matches false xs)

trim_start-All : (P : ℕ → Type 0) (xs : Text) → All P xs → All P (trim_start xs)
trim_start-All P [] h = tt
trim_start-All P (c ∷ xs) h = elim (Bool-cases (is_space c)) [
  | inl space ↦ rw (space) (trim_start-All P xs h.1)
  | inr other ↦ rw (other) h
]

length-trim_start : (xs : Text) → length (trim_start xs) ≤ length xs
length-trim_start [] = omega arith
length-trim_start (c ∷ xs) = elim (Bool-cases (is_space c)) [
  | inl space ↦ rw (space) (omega (arith, length-trim_start xs))
  | inr other ↦ rw (other) (omega arith)
]

trim_text-All : (P : ℕ → Type 0) (xs : Text) → All P xs → All P (trim_text xs)
trim_text-All P xs h =
    All-reverse P _ (trim_start-All P _ (All-reverse P _ (trim_start-All P xs h)))

length-trim_text : (xs : Text) → length (trim_text xs) ≤ length xs
length-trim_text xs = omega (
  arith,
  length-reverse (trim_start (reverse (trim_start xs))),
  length-trim_start (reverse (trim_start xs)),
  length-reverse (trim_start xs),
  length-trim_start xs,
)

-- A suggested command that is kept is not empty, no longer than the limit, and holds no control
-- character, so that inserting it sends no line end.
pub sanitize_suggested_command_safe :
    (command : Option Text) (max_length : ℕ) (sanitized : Text)
    → sanitize_suggested_command command max_length ≡ some sanitized
    → (0 < length sanitized) × (length sanitized ≤ max_length) × All IsPlain sanitized
unfolding sanitize_suggested_command
sanitize_suggested_command_safe none max_length sanitized e = cc
sanitize_suggested_command_safe (some command) max_length sanitized e =
    let spaced = replace_runs is_control false (take max_length command) in
    let result = trim_text (replace_runs is_space false spaced) in
    elim (Bool-cases (ltb 0 (length result))) [
      | inr empty ↦ absurd (none_kept (rw (empty) at e))
      | inl kept ↦
          let same : result ≡ sanitized = just (rw (kept) at e) in
          (
            rw (← same) (ltb→lt _ _ kept),
            rw (← same) (
                omega (
                  arith,
                  length-trim_text (replace_runs is_space false spaced),
                  length-replace_runs is_space false spaced,
                  length-replace_runs is_control false (take max_length command),
                  length-take-le max_length command,
                )),
            rw (← same) (
                trim_text-All IsPlain _ (
                  replace_runs-All IsPlain is_space false spaced refl
                    (replace_runs-control false (take max_length command)))),
          )
    ]
  where
    none_kept : none ≡ some sanitized → ⊥
    none_kept h = cc

    just : {x : Text} → some x ≡ some sanitized → x ≡ sanitized
    just h = cc

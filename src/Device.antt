-- ===== src/Device.antt =====
-- src/server/device.ts: which device names and suggested commands a session may carry.
pub mod Checks
use connexin.Prelude.{
  ℕ, zero, suc, ◌+◌, Bool, true, false, not, ◌||◌, List, [], ◌∷◌, Option, none, some, ltb, ◌==◌,
  if◌then◌else◌, any, length, take, starts_with, has_text, is_space, is_control, trim_text,
}
use connexin.Utf8.{Text}

-- The messages of the errors that `validateDevice` throws.
pub data DeviceError : Type 0 where
  device_is_required device_is_too_long must_not_start_with_dash : DeviceError
  must_not_contain_whitespace_or_control not_listed_in_ssh_config : DeviceError

pub data DeviceResult : Type 0 where
  valid_device : Text → DeviceResult
  device_error : DeviceError → DeviceResult

unfoldable pub validate_device : Text → List Text → ℕ → DeviceResult
validate_device target allowed_hosts max_device_length =
    if length target == 0
    then device_error device_is_required
    else if ltb max_device_length (length target)
    then device_error device_is_too_long
    else if starts_with target (b'-' ∷ [])
    then device_error must_not_start_with_dash
    else if any (λ c. is_space c || is_control c) target
    then device_error must_not_contain_whitespace_or_control
    else if not (has_text target allowed_hosts)
    then device_error not_listed_in_ssh_config
    else valid_device target

-- `replace(/[…]+/g, " ")`: each run of matching units becomes one space.
replace_runs : (ℕ → Bool) → Bool → Text → Text
replace_runs matches in_run [] = []
replace_runs matches in_run (c ∷ rest) =
    let after_match = replace_runs matches true rest in
    let after_other = replace_runs matches false rest in
    if matches c then (if in_run then after_match else 0x20 ∷ after_match) else c ∷ after_other

unfoldable pub sanitize_suggested_command : Option Text → ℕ → Option Text
unfolding replace_runs
sanitize_suggested_command none max_length = none
sanitize_suggested_command (some command) max_length =
    let spaced = replace_runs is_control false (take max_length command) in
    let sanitized = trim_text (replace_runs is_space false spaced) in
    if ltb 0 (length sanitized) then some sanitized else none

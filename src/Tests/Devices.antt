-- ===== src/Tests/Devices.antt =====
-- The theorem on connexin.toml at two devices.
use connexin.Prelude.{◌≡◌, refl, List, [], ◌∷◌, some, codes}
use connexin.Utf8.{Text}
use connexin.SessionManager.Session.{caution}
use connexin.SessionManager.Manager.{DeviceMetadata}
use connexin.DeviceMetadata.{
  parsed, rejected, expected_device, values_must_be_quoted, no_metadata, parse_connexin_toml,
  has_device,
}
use connexin.DeviceMetadata.Rendered.{render_connexin_toml}
use connexin.DeviceMetadata.RoundTrip.{parse_connexin_toml-render_connexin_toml}

-- The label has a backslash, a quotation mark, a line end and a number sign.
abbrev two_devices : List (Text × DeviceMetadata)
two_devices =
    (
      codes "nas",
      record no_metadata { label = some (0x5c ∷ b'"' ∷ 0x0a ∷ b'#' ∷ []); danger = some caution },
    )
    ∷ (codes "pi 4", no_metadata)
    ∷ []

parse_connexin_toml-render_connexin_toml_example :
    parse_connexin_toml (render_connexin_toml two_devices) ≡ parsed two_devices
unfolding has_device
parse_connexin_toml-render_connexin_toml_example =
    parse_connexin_toml-render_connexin_toml two_devices (refl, (refl, tt))

-- A table with an empty name is accepted, and its first key is not.
empty_name :
    parse_connexin_toml (codes "[devices.\"\"]\nlabel=\"x\"") ≡ rejected (expected_device 2)
unfolding parse_connexin_toml
empty_name = refl

spaced :
    parse_connexin_toml (codes "[ devices.nas ] # here\r\n danger = \"caution\" # not #1\n")
    ≡ parsed ((codes "nas", record no_metadata { danger = some caution }) ∷ [])
unfolding parse_connexin_toml
spaced = refl

-- The closing quotation mark behind an escaped backslash is not seen, and the comment stays.
comment_kept :
    parse_connexin_toml (codes "[devices.nas]\nlabel = \"a\\\\\" # c")
    ≡ rejected (values_must_be_quoted 2)
unfolding parse_connexin_toml
comment_kept = refl

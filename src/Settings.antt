-- ===== src/Settings.antt =====
-- src/server/config.ts: the runtime configuration from environment variables and the `[runtime]`
-- table of connexin.toml. URL parsing and `Number` on a text are outside: `SettingsWorld` has them,
-- with the text of the file and the directories of the process.
pub mod Values
pub mod Gives
pub mod Origins
pub mod Runtime
pub mod Load
pub mod Allowed
pub mod Precedence

-- ===== src/Lib.antt =====
-- The terminal server of connexin: an MCP server that opens SSH terminals for a model and an app,
-- and keeps their output, their files, and an audit log.
--
-- A `ConnexinSessionManager` (src/server/session-manager.ts) owns the sessions. It validates the
-- device with src/server/device.ts, starts `ssh` in a pseudo terminal, and registers two listeners.
-- Output goes to a scrollback (src/shared/bounded-text-buffer.ts) and to a ring of numbered
-- chunks, both cut by src/shared/utf8.ts; clients poll the ring with a cursor. Each operation
-- writes audit records through src/server/audit-log.ts.
--
-- The files:
--   Prelude            numbers, Booleans, lists, and texts as lists of UTF-16 code units.
--   Utf8               src/shared/utf8.ts: byte lengths and the three cutters. `Encoding` has the
--                      encoder of the UTF-8 standard that the length is compared with.
--   BoundedTextBuffer  src/shared/bounded-text-buffer.ts: `append`, `trim`, `compactIfNeeded`.
--   AuditLog           src/server/audit-log.ts: events, `redact`, `createAuditRateLimiter`.
--   Device             src/server/device.ts: `validateDevice`, `sanitizeSuggestedCommand`.
--   DeviceMetadata     src/server/device-metadata.ts: `parseConnexinToml`. `Rendered` writes what
--                      it is to read back.
--   FilePolicy         src/server/file-policy.ts: `normalizeRelativePath`, and the check of a
--                      canonical path against its root. `Posix` has `confinedRemotePath` and
--                      the functions of node:path that it and the file session call.
--   Numbers            JavaScript numbers as far as the code tells them apart.
--   Json, Toml         `JSON.parse` on a string literal, comments and `key = value`.
--   Settings           src/server/config.ts. `Values` reads one variable, `Origins` origins and
--                      the public URL, `Runtime` the `[runtime]` table, `Load` everything.
--   SftpHelper         src/server/sftp-helper.ts: the requests that wait for the helper process, and
--                      in `Lane` the queue of `exclusiveTransfer`.
--   FileSession        src/server/file-session.ts: `Entry` fingerprints, `Lease` the leases, `Run`
--                      the state, the requests and `getHelper`, `Resolve` the paths, `Prepare`,
--                      `Redeem` and `Listing` the operations.
--   SshConfig          src/server/ssh-config.ts: `Tokens` has the lines and tokens, `Hosts` has
--                      `parseSshConfigHosts` with the checks of directives that run commands.
--   SessionManager     src/server/session-manager.ts. `Session` has the data of a session, the
--                      output ring and `pollSession`; `Audit` the audit health; `Manager` the
--                      state, where a `Map` is a list in the order of insertion; `Create`,
--                      `Start`, `Access` and `Close` the operations; `History` any sequence of
--                      operations and terminal events; `Receipts` a session from its creation on.
--   Tests              concrete inputs, at which the theorems are applied.
--
-- How the code corresponds: a method takes the manager and returns the manager with its result.
-- Session objects, which the source mutates in place, are the entries of the map, found by id.
-- What the source calls outside is the record `World` of one call: the clock, random identifiers,
-- the terminal factory and its registrations, which of the handles throw, and the audit sink as a
-- function from the number of the call to what it throws. The calls made outside are recorded in
-- `effects`. Exceptions that the source throws are values of a result type.
--
-- A call of a file session is likewise a function of its state and of a `FileWorld`, which says
-- what the helper answers to each request, whether it answers in time, and whether `dispose` is
-- called while the request waits. Other calls do not interleave with it, but for `Overrun`, where
-- calls of `prepare` wait together. A `SettingsWorld` has URL parsing, `Number` on a text, the text
-- of connexin.toml and the default paths.
--
-- An SFTP helper is a state machine: each call or callback is an event, and any list of events may
-- happen. A promise that is settled is recorded, as is a line that is written.
--
-- Bounds: the loop of `trim` runs on fuel, one more than the number of chunks, since each
-- round but the last passes over one chunk; and the digits of a number on fuel above the number,
-- which each digit at least halves. All other loops are structural. Numbers are natural numbers;
-- a difference that the source takes is taken where it is not negative, or the sum is compared.
--
-- Not modelled: the sinks of the audit log and their files, logging with `console.error`, the
-- environment of the terminal, a terminal whose `write` or `resize` throws, `listDevices`, waiting
-- for draining file sessions, `drain` of a file session, the pipes of a transfer, errors of reading
-- connexin.toml other than its absence, and the parts of the repository that are not named above.
pub mod Prelude
pub mod Utf8
pub mod Numbers
pub mod Json
pub mod Toml
pub mod Settings
pub mod BoundedTextBuffer
pub mod AuditLog
pub mod Device
pub mod DeviceMetadata
pub mod FilePolicy
pub mod SftpHelper
pub mod FileSession
pub mod SshConfig
pub mod SessionManager
pub mod Tests

-- ===== src/SessionManager.antt =====
-- src/server/session-manager.ts. `Session` has the data of a session and its output ring, `Audit` the
-- audit sink with its health, `Manager` the manager, and the rest its operations.
pub mod Session
pub mod Output
pub mod Receipts
pub mod Poll
pub mod Audit
pub mod Manager
pub mod Create
pub mod Access
pub mod Close
pub mod Start
pub mod History

-- ===== src/FileSession.antt =====
-- src/server/file-session.ts: the files of one session behind a helper process. `Entry` has the
-- metadata of a file, `Lease` the leases that a confirmed operation redeems, `Run` a call with its
-- requests to the helper, and the rest the operations.
pub mod Entry
pub mod Lease
pub mod Run
pub mod Resolve
pub mod Prepare
pub mod Redeem
pub mod Safety
pub mod Applied
pub mod Connection
pub mod Confirmed
pub mod Mutation
pub mod Gives
pub mod Download
pub mod Listing
pub mod Overrun

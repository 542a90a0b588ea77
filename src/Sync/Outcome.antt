-- ===== src/Sync/Outcome.antt =====
-- What the result and the error of `SyncCertificate` of pkg/a10/sync.go say of what has happened.
pub mod Unchanged
pub mod Saved
pub mod Written
pub mod Leftovers
pub mod Deletions

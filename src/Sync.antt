-- ===== src/Sync.antt =====
-- src/resumable/stackful/sync/ and src/resumable/common/sync/: the locks, barriers and condition
-- variables.
pub mod Mcs
pub mod Blocking
pub mod Barrier
pub mod Condvar
pub mod Combining
mod Examples
mod Checks

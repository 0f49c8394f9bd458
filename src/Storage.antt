-- ===== src/Storage.antt =====
-- ss.c and the copies of file_ops.c: the storage server.
pub mod Disk
pub mod Backups
pub mod Locks
pub mod Sessions
pub mod Isolation
pub mod Commits
pub mod Server
pub mod Requests

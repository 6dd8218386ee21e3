-- ===== src/Backup.antt =====
-- catalog/backup.go: the names of backups, their rotation in the bucket, and the restoring of one.
pub mod Listing
pub mod Order
pub mod Rotation
pub mod Restore
pub mod Drained
pub mod Untouched

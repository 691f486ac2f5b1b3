-- ===== src/Storage.antt =====
-- registry-server/storage.go: the keys and the changes of the indexes and of the version metadata,
-- with the handlers of registry-server/api.go that deprecate a version.
pub mod Resolve
pub mod Index
pub mod Deprecate
pub mod Changed
pub mod Writes
pub mod Steps
pub mod Streams
pub mod Written
pub mod Published
pub mod Reused
pub mod Immutable
pub mod OnDisk
pub mod Atomic
pub mod Listing
pub mod Links
pub mod LinkTests
pub mod Removal
pub mod Removed
pub mod Collected
pub mod Deleted
pub mod Staged
pub mod Tests
pub mod DiskTests

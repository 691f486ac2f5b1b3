-- ===== src/Import.antt =====
-- cmd/tfreg/import.go: the identity of an OCI artifact, checked before the package is downloaded,
-- the download itself, and the address to which the package is uploaded.
pub mod Version
pub mod Manifest
pub mod Fetch
pub mod Address
pub mod Mirror
pub mod Identity
pub mod Verified
pub mod Tests

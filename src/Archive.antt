-- ===== src/Archive.antt =====
-- registry-server/archive_validation.go: what an uploaded archive has to be.
pub mod Provider
pub mod Module
pub mod Names
pub mod Accepted
pub mod Modules
pub mod Tests

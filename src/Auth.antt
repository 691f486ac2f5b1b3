-- ===== src/Auth.antt =====
-- registry-server/auth.go: API keys with their permissions, and the middleware that asks for them.
pub mod Hash
pub mod Keys
pub mod Gate
pub mod Reload
pub mod Access
pub mod Tests

-- ===== src/Protocol.antt =====
-- registry-server/main.go: the handlers of the provider and module protocols and of the network
-- mirror, with the readers of storage.go that they call. A request reads one state of the storage.
pub mod Reader
pub mod Modules
pub mod Providers
pub mod Latest
pub mod Listed
pub mod Tests

-- ===== src/Registry.antt =====
-- registry/src: the discovery service, its table and its routes.
pub mod Patterns
pub mod Validate
pub mod Store
pub mod Providers
pub mod Server
pub mod Tests

-- ===== src/Registry.antt =====
-- The registry of game servers: src/modules/servers/services/server-registry.service.ts with its
-- types, over the JSON store (`database.enabled` is false).
pub mod Types
pub mod Access
pub mod Store
pub mod Lifecycle
pub mod Sharing
pub mod Ports
pub mod Tests

-- ===== src/Plans.antt =====
-- Server plans: src/modules/servers/services/server-plans.service.ts and database-catalog.ts.
pub mod Catalog
pub mod Fields
pub mod Records
pub mod Literals
pub mod Service
pub mod Drafts
pub mod Histories
pub mod Lookup
mod Tests

-- ===== src/Schedules.antt =====
-- Scheduled work on a server: src/modules/servers/services/server-schedules.service.ts.
pub mod Config
pub mod Service
pub mod Execution
mod Tests

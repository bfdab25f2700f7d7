-- ===== src/Placement.antt =====
-- Placement of a server: src/modules/servers/services/server-placement.service.ts. Byte counts are
-- whole numbers below 2^53, and their quotient is rounded as the double is. The order of
-- `localeCompare`, `JSON.parse` of the port mappings and `Number` of a variable are fields of
-- `Fleet`. `allocations`, a list for display, is not modelled.
pub mod Quotient
pub mod Records
pub mod Allocations
pub mod Ranking
pub mod Order
pub mod Eligible
pub mod Rooms
mod Tests

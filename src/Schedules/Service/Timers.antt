-- ===== src/Schedules/Service/Timers.antt =====
-- The timers and executions against the stored schedules, id by id.
pub mod Slots
pub mod Good
pub mod Ops
pub mod Runs
pub mod Served

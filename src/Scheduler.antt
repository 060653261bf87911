-- ===== src/Scheduler.antt =====
-- internal/scheduler and the tables that it keeps.
pub mod Tasks
mod Tests
pub mod Trigger
pub mod Entries
pub mod Handlers

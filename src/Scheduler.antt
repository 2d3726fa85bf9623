-- ===== src/Scheduler.antt =====
-- The scheduler (pkg/scheduler).
pub mod Filters
pub mod Select
pub mod Pools
pub mod Backlog
pub mod Run
pub mod Dispatch
pub mod Turn
pub mod Sizing
pub mod Health
pub mod Cleaner

-- ===== src/Task.antt =====
-- The tasks of the deployed functions: where they are kept, and what the dispatcher does with them.
pub mod Redis
pub mod Store
pub mod Dispatcher
pub mod Slots
pub mod Steps
pub mod Monitor
pub mod Spares
pub mod Bounded
pub mod Reach
pub mod Outcome
pub mod Answers
pub mod Rounds
pub mod Executors

-- ===== src/Runtime.antt =====
-- The request handles and the scheduler of the native runtime.
pub mod Handle
pub mod Task
pub mod Scheduler
mod Tests

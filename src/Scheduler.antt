-- ===== src/Scheduler.antt =====
-- The scheduler: src/application/scheduler/ and the rows it works on.
pub mod Tasks
pub mod Events
pub mod Shutdown
pub mod Jobs
pub mod Batch
pub mod Requests
pub mod Owners
pub mod Bootstrap
mod Tests

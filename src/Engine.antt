-- ===== src/Engine.antt =====
-- Package internal/engine: the scheduler and its parts.
pub mod Semaphore
pub mod Retry
pub mod History
pub mod Scheduler
pub mod Result
pub mod Stream
pub mod Prompt
pub mod Audit
pub mod Dual

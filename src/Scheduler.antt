-- ===== src/Scheduler.antt =====
-- src/smart_build/scheduler.py and src/smart_build/cache.py.
pub mod Batches
pub mod Cache
pub mod Display
pub mod Run
mod Samples

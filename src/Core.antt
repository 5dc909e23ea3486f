-- ===== src/Core.antt =====
-- The parts of internal/core that are modelled.
pub mod Breaker
pub mod CommandSafety
pub mod Events
pub mod AsyncPool
pub mod Registry
pub mod Retry
pub mod Scheduler

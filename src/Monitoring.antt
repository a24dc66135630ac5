-- ===== src/Monitoring.antt =====
-- src/monitoring: retries of mount operations and the order of dependent mounts.
pub mod Retry
pub mod MountRetry
pub mod Dependency
pub mod Scheduler
pub mod Manager

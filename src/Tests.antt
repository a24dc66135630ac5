-- ===== src/Tests.antt =====
-- Runs at fixed inputs, and the theorems applied to them.
mod StateMachine
mod Retry
mod Merge
mod Options
mod Marked
mod Coordinator
mod Scheduler
mod PathSecurity
mod Dependency
mod Config
mod MountRetry

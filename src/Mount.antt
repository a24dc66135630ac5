-- ===== src/Mount.antt =====
-- src/mount: mounts, their states and their options.
pub mod Config
pub mod StateMachine
pub mod Options

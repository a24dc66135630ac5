-- ===== src/Security.antt =====
-- src/security: the checks of paths.
pub mod Paths
pub mod PathSecurity

-- ===== src/Config.antt =====
-- The configuration of a satellite (pkg/config).
pub mod Audit
pub mod Validate
pub mod Manager

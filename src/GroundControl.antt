-- ===== src/GroundControl.antt =====
-- Ground Control, the cloud side (internal/groundcontrol).
pub mod RateLimit
pub mod Policy
pub mod Accounts
pub mod Fleet
pub mod Action
pub mod Harbor
pub mod Satellites
pub mod GroupSync
pub mod Configs
pub mod Redaction
pub mod Login
pub mod Access
pub mod Users

-- ===== src/Satellite.antt =====
-- The satellite, the edge side (internal/satellite and internal/utils).
pub mod Scheduler
pub mod HotReload
pub mod Utils
pub mod State
pub mod Changes
pub mod Groups
pub mod Replicator
pub mod Persistence
pub mod GroupState
pub mod Collect
pub mod Execute

-- ===== src/Tests.antt =====
-- Runs on concrete data, and the theorems at concrete arguments.
mod Caches
pub mod Tracking
pub mod Checks
pub mod Setting
mod Broadcasting
mod Parsing
mod Callbacks
mod Boot
mod Upkeep
mod Requests
mod Lifecycle

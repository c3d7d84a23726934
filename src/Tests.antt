-- ===== src/Tests.antt =====
-- Runs of the operations on small stores, with the theorems about them applied.
pub mod Data
pub mod Workflows
pub mod Events
pub mod LocalChat
pub mod Store
pub mod Tools
pub mod Rescue
pub mod Settings
pub mod Backends

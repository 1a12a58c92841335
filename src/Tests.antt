-- ===== src/Tests.antt =====
-- Concrete states and requests, and the theorems at them.
pub mod Sync
pub mod Server
pub mod Batch
pub mod Auth
pub mod Engine
pub mod Daemon

-- ===== src/Server.antt =====
-- The server: its errors, its blob store, its file routes.
pub mod Error
pub mod Blobs
pub mod Db
pub mod Files
pub mod Batch
pub mod Auth

-- ===== src/Db.antt =====
-- api/db/store.go: the PostgreSQL tables and the statements of the store.
pub mod Tables
pub mod Like
pub mod Devices
pub mod Messages
pub mod Offline
pub mod Summary
pub mod Driver

-- ===== src/Api.antt =====
-- The management API: api/services.
pub mod Devices
pub mod Numbers
pub mod Bytes
pub mod Hub
pub mod Bridge
pub mod Handlers
pub mod Routes
pub mod Serve

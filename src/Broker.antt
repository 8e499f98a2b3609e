-- ===== src/Broker.antt =====
-- The broker.
pub mod Merge
pub mod Session
pub mod Subscription
pub mod Limiter
pub mod State
pub mod Router
pub mod Server

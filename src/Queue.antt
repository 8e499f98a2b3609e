-- ===== src/Queue.antt =====
-- The queues for clients that are not connected.
pub mod Memory
pub mod Persistent

-- ===== src/Qtt.antt =====
-- The QTT protocol: packets, the broker's answers, and topics.
pub mod Packet
pub mod Client
pub mod Builders
pub mod Topic

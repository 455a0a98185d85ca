-- ===== src/Kafka.antt =====
-- The kafka protocol.
pub mod Codec

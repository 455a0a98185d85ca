-- ===== src/Valkey.antt =====
-- The valkey protocol: its frames, the codec and the cluster sink.
pub mod Frame
pub mod Errors
pub mod Codec
pub mod Cluster
pub mod PortsRewrite

-- ===== src/Valkey/Cluster.antt =====
-- shotover/src/transforms/valkey/sink_cluster.rs: the sink that shows a cluster as one node.
pub mod Routing
pub mod Slots
pub mod Redirection
pub mod Sink
mod Tests

-- ===== src/Cassandra.antt =====
-- shotover/src/transforms/cassandra: the parts of the cassandra cluster sink that choose a node.
pub mod Murmur
pub mod RoutingKey
pub mod TokenRing
pub mod NodePool

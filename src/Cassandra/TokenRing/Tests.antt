-- ===== src/Cassandra/TokenRing/Tests.antt =====
-- The ring of the source's unit tests, with two racks instead of one.
use shotover_proxy.Prelude.{
  ℕ, ◌-◌, ◌^◌, ◌≡◌, ◌≢◌, refl, arith, true, List, [], ◌∷◌, codes, Bytes, bytes_eq, none, ok,
}
use shotover_proxy.Cassandra.TokenRing.{
  CassandraNode, KeyspaceMetadata, simple_strategy, network_topology_strategy, token_key,
  ring_range, iter_replica_nodes, new, found, insert, sort_by_key, entries, binary_search,
  find_node, accept, walk,
}
use shotover_proxy.Cassandra.TokenRing.Range.{Turn, AllDiffer, IsAnswer, ring_range-Turn}
use shotover_proxy.Cassandra.TokenRing.Replicas.{Picked}
use shotover_proxy.Cassandra.TokenRing.Total.{iter_replica_nodes_network}

abbrev node : ℕ → Bytes → List ℕ → CassandraNode ℕ
node id rack tokens = record {
  address = id;
  rack = rack;
  host_id = id;
  is_up = true;
  outbound = none;
  tokens = tokens;
}

-- Tokens -2, -1, 0, then 20, then 2, 1, 10.
abbrev three_nodes : List (CassandraNode ℕ)
three_nodes =
    node 1 (codes "rack1") ((2 ^ 64 - 2) ∷ (2 ^ 64 - 1) ∷ 0 ∷ [])
    ∷ node 2 (codes "rack1") (20 ∷ [])
    ∷ node 3 (codes "rack2") (2 ∷ 1 ∷ 10 ∷ [])
    ∷ []

abbrev network : KeyspaceMetadata
network = record { replication_factor = 3; replication_strategy = network_topology_strategy }

abbrev simple : KeyspaceMetadata
simple = record { replication_factor = 5; replication_strategy = simple_strategy }

simple_at_zero :
    iter_replica_nodes (new three_nodes) three_nodes 0 simple ≡ ok (1 ∷ 3 ∷ 3 ∷ 3 ∷ 2 ∷ [])
unfolding iter_replica_nodes walk accept ring_range new insert sort_by_key entries binary_search
    token_key
simple_at_zero = refl

network_at_zero : iter_replica_nodes (new three_nodes) three_nodes 0 network ≡ ok (1 ∷ 3 ∷ [])
unfolding iter_replica_nodes walk accept find_node bytes_eq ring_range new insert sort_by_key
    entries binary_search token_key
network_at_zero = refl

tokens_differ : AllDiffer (new three_nodes).ring_in
unfolding new insert sort_by_key entries token_key
tokens_differ = ground arith

found_last : IsAnswer (new three_nodes).ring_in 20 (found 6)
unfolding new insert sort_by_key entries token_key
found_last = (20, refl, refl)

ring_range-Turn_example : Turn (new three_nodes) 20 (found 6)
ring_range-Turn_example = ring_range-Turn three_nodes 20 (found 6) tokens_differ found_last

iter_replica_nodes_network_example :
    (p : Picked three_nodes (ring_range (new three_nodes) 20) 3 []) × (iter_replica_nodes
        (new three_nodes)
        three_nodes
        20
        network
      ≡ ok p.hosts)
iter_replica_nodes_network_example = iter_replica_nodes_network three_nodes 20 network refl

not_network : simple_strategy ≢ network_topology_strategy
not_network e = cc

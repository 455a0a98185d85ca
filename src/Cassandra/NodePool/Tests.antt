-- ===== src/Cassandra/NodePool/Tests.antt =====
-- A pool of three nodes, of which one is connected.
use mathlib.Core.List.Perm
use shotover_proxy.Prelude.{
  ℕ, ◌+◌, ◌≡◌, ◌⊎◌, inl, inr, refl, true, List, [], ◌∷◌, Bytes, codes, bytes_eq, Option, none, some,
  ok, err, All, get_elem?,
}
use shotover_proxy.Cassandra.Murmur.{
  Hasher, write, finish, byte_at, mix_tail, keep, fill, bulk, copy_into, hash_whole,
}
use shotover_proxy.Cassandra.Murmur as Murmur
use shotover_proxy.Cassandra.RoutingKey.{
  simple_values, set, calculate_routing_key, serialize_routing_key_with_indexes, single_column,
}
use shotover_proxy.Cassandra.TokenRing.{
  CassandraNode, KeyspaceMetadata, simple_strategy, new, insert, sort_by_key, entries,
  binary_search, ring_range, iter_replica_nodes, walk, accept, token_key,
}
use shotover_proxy.Cassandra.NodePool.{
  NodePool, PreparedMetadata, Execute, replica, lookup, replica_host_ids, get_replica_node_in_dc,
  clone_nodes, update_nodes,
}
use shotover_proxy.Cassandra.NodePool.Racks.{Ordered, get_replica_node_in_dc-Ordered}
use shotover_proxy.Cassandra.NodePool.Updates.{
  Carried, Connected, update_nodes-Carried, update_nodes-Connected,
}
use shotover_proxy.Cassandra.NodePool.Connect.{
  Opening, get_random_connection_in_dc_rack, up_in_rack,
}
use shotover_proxy.Cassandra.NodePool.Accessible.{
  passes, get_random_connection_in_dc_rack-up_in_rack,
}

abbrev node : ℕ → Bytes → Option ℕ → List ℕ → CassandraNode ℕ
node id rack outbound tokens = record {
  address = id;
  rack = rack;
  host_id = id;
  is_up = true;
  outbound = outbound;
  tokens = tokens;
}

abbrev three_nodes : List (CassandraNode ℕ)
three_nodes =
    node 1 (codes "rack1") none (10 ∷ [])
    ∷ node 2 (codes "rack2") (some 77) (20 ∷ [])
    ∷ node 3 (codes "rack1") none (30 ∷ [])
    ∷ []

abbrev users : PreparedMetadata
users = record { pk_indexes = 0 ∷ []; keyspace = some (codes "users") }

abbrev twice : KeyspaceMetadata
twice = record { replication_factor = 2; replication_strategy = simple_strategy }

abbrev pool : NodePool ℕ
pool = record {
  prepared_metadata = (codes "q", users) ∷ [];
  keyspace_metadata = (codes "users", twice) ∷ [];
  token_map = new three_nodes;
  nodes = three_nodes;
  out_of_rack_requests = 0;
}

abbrev find_user : Execute
find_user = record { id = codes "q"; values = some (simple_values (set (codes "xd") ∷ [])) }

find_user_hosts : replica_host_ids pool find_user ≡ ok (replica (1 ∷ 2 ∷ []))
unfolding replica_host_ids lookup bytes_eq calculate_routing_key serialize_routing_key_with_indexes
    single_column Murmur.new Murmur.absorb Murmur.hash_16_bytes write fill bulk keep copy_into
    hash_whole finish mix_tail byte_at iter_replica_nodes walk accept ring_range binary_search new
    insert sort_by_key entries token_key
find_user_hosts = refl

abbrev same_order : List ℕ → List ℕ
same_order xs = xs

get_replica_node_in_dc-Ordered_example :
    (pool' : NodePool ℕ) × (nodes : List ℕ) × (get_replica_node_in_dc same_order find_user
        (codes "rack2")
        pool
      ≡ ok (pool', replica nodes))
    × Ordered same_order (λ xs. Perm.refl xs) (codes "rack2") pool (1 ∷ 2 ∷ []) nodes
    × (pool'.nodes ≡ pool.nodes)
get_replica_node_in_dc-Ordered_example =
    get_replica_node_in_dc-Ordered same_order (λ xs. Perm.refl xs) find_user (codes "rack2") pool
      (1 ∷ 2 ∷ []) find_user_hosts

-- Node 3 is gone and node 4 is new.
abbrev received : List (CassandraNode ℕ)
received =
    node 4 (codes "rack1") none (30 ∷ [])
    ∷ node 2 (codes "rack2") none (20 ∷ [])
    ∷ node 1 (codes "rack1") none (10 ∷ [])
    ∷ []

update_nodes-Carried_example :
    All (Carried three_nodes) (update_nodes received pool).nodes
    × (clone_nodes (update_nodes received pool).nodes ≡ clone_nodes received)
update_nodes-Carried_example = update_nodes-Carried received pool

update_nodes-Connected_example : Connected 2 (update_nodes received pool).nodes
update_nodes-Connected_example =
    update_nodes-Connected received pool 2 77 (inr (inl (refl, refl))) (inr (inl (refl, refl)))

-- The connection to an address is the address; the outside counts the attempts.
abbrev new_connection : ℕ → ℕ → ℕ × Option ℕ
new_connection w address = (w + 1, some address)

abbrev opening : Opening new_connection
opening = record { world = 0; nodes = three_nodes }

get_random_connection_in_dc_rack-up_in_rack_example :
    ((get_random_connection_in_dc_rack new_connection same_order (codes "rack2") opening).1
      ≡ err "Attempted to open a connection to one of multiple nodes but all attempts failed")
    ⊎ ((place : ℕ) × (found : CassandraNode ℕ) × (c : ℕ) × ((get_random_connection_in_dc_rack
            new_connection same_order
            (codes "rack2")
            opening).1
          ≡ ok c)
        × (passes (up_in_rack new_connection (codes "rack2")) (get_elem? three_nodes place) ≡ true)
        × (get_elem?
              (get_random_connection_in_dc_rack new_connection same_order
                (codes "rack2")
                opening).0.nodes
              place
            ≡ some found)
        × (found.outbound ≡ some c))
get_random_connection_in_dc_rack-up_in_rack_example =
    get_random_connection_in_dc_rack-up_in_rack new_connection same_order (λ xs. Perm.refl xs)
      (codes "rack2") opening

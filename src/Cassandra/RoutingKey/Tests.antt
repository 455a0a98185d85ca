-- ===== src/Cassandra/RoutingKey/Tests.antt =====
-- The routing key at concrete requests.
use shotover_proxy.Prelude.{arith, ◌≡◌, [], ◌∷◌, codes, ok, none}
use shotover_proxy.Cassandra.RoutingKey.{set, null, serialize_routing_key_with_indexes}
use shotover_proxy.Cassandra.RoutingKey.Composite.{
  hash_all, partition_key, serialize_routing_key-partition_key,
}

-- Column 1 of two values is missing.
missing_value : serialize_routing_key_with_indexes (set (codes "a") ∷ []) (0 ∷ 1 ∷ []) ≡ ok none
missing_value =
    serialize_routing_key-partition_key (set (codes "a") ∷ []) (0 ∷ 1 ∷ []) (omega arith, (tt, tt))

serialize_routing_key_example :
    serialize_routing_key_with_indexes (set (codes "k") ∷ null ∷ set (codes "v") ∷ []) (2 ∷ 0 ∷ [])
    ≡ ok (hash_all (partition_key (set (codes "k") ∷ null ∷ set (codes "v") ∷ []) (2 ∷ 0 ∷ [])))
serialize_routing_key_example =
    serialize_routing_key-partition_key (set (codes "k") ∷ null ∷ set (codes "v") ∷ []) (2 ∷ 0 ∷ [])
      (omega arith, (omega arith, tt))

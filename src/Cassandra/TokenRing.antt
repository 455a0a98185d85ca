-- ===== src/Cassandra/TokenRing.antt =====
-- shotover/src/transforms/cassandra/sink_cluster/token_ring.rs, with the node of node.rs and the
-- keyspace of node_pool.rs. A token is an `i64`, given as its pattern of 64 bits, and ids are numbers.
pub mod Range
pub mod Replicas
pub mod Total
mod Tests
use shotover_proxy.Prelude.{
  ℕ, zero, suc, ◌+◌, ◌%◌, ◌^◌, Bool, true, false, List, [], ◌∷◌, ◌++◌, map, Bytes, Option, none,
  some, Result, ok, panic, ◌>>=◌, ltb, leb, ◌==◌, if◌then◌else◌, bytes_eq, length, take, drop, anyb,
}

pub data ReplicationStrategy : Type 0 where
  simple_strategy network_topology_strategy local_strategy unknown : ReplicationStrategy

pub record KeyspaceMetadata : Type 0 where
  pub replication_factor : ℕ
  pub replication_strategy : ReplicationStrategy

-- `C` is the type of connections.
pub record CassandraNode (C : Type 0) : Type 0 where
  pub address : ℕ
  pub rack : Bytes
  pub host_id : ℕ
  pub is_up : Bool
  pub outbound : Option C
  pub tokens : List ℕ

-- The order of `i64`, on bit patterns.
unfoldable pub token_key : ℕ → ℕ
token_key t = (t + 2 ^ 63) % 2 ^ 64

pub record TokenRing : Type 0 where
  pub ring_in : List ℕ
  pub ring_out : List ℕ

-- A stable sort by token.
unfoldable pub insert : ℕ × ℕ → List (ℕ × ℕ) → List (ℕ × ℕ)
insert x [] = x ∷ []
insert x (y ∷ ys) = if leb (token_key (x.0)) (token_key (y.0)) then x ∷ y ∷ ys else y ∷ insert x ys

unfoldable pub sort_by_key : List (ℕ × ℕ) → List (ℕ × ℕ)
sort_by_key [] = []
sort_by_key (x ∷ xs) = insert x (sort_by_key xs)

unfoldable pub entries : {C : Type 0} → List (CassandraNode C) → List (ℕ × ℕ)
entries [] = []
entries (node ∷ nodes) = map (λ t. (t, node.host_id)) node.tokens ++ entries nodes

unfoldable pub new : {C : Type 0} → List (CassandraNode C) → TokenRing
new nodes =
    let ring = sort_by_key (entries nodes) in
    record { ring_in = map (λ e. e.0) ring; ring_out = map (λ e. e.1) ring }

pub data Search : Type 0 where
  found insert_at : ℕ → Search

abbrev pub next_slot : Search → Search
next_slot (found i) = found (suc i)
next_slot (insert_at i) = insert_at (suc i)

-- `binary_search_by` on a sorted list. Rust leaves open which of several equal tokens it finds; here
-- it is the first.
unfoldable pub binary_search : List ℕ → ℕ → Search
binary_search [] t = insert_at 0
binary_search (x ∷ xs) t =
    let later = next_slot (binary_search xs t) in
    if ltb (token_key x) (token_key t)
    then later
    else if token_key x == token_key t
    then found 0
    else insert_at 0

abbrev pub either_index : Search → ℕ
either_index (found i) = i
either_index (insert_at i) = i

-- The iterator, on the index that the search gave.
abbrev pub ring_from : TokenRing → ℕ → List ℕ
ring_from ring i = take (length ring.ring_out) (drop i ring.ring_out ++ ring.ring_out)

unfoldable pub ring_range : TokenRing → ℕ → List ℕ
ring_range ring token = ring_from ring (either_index (binary_search ring.ring_in token))

-- `nodes.iter().find(|x| x.host_id == *host_id)`
unfoldable pub find_node : {C : Type 0} → List (CassandraNode C) → ℕ → Option (CassandraNode C)
find_node [] host_id = none
find_node (node ∷ nodes) host_id =
    if node.host_id == host_id then some node else find_node nodes host_id

abbrev pub cons_result : ℕ → Result (List ℕ) → Result (List ℕ)
cons_result x r = do xs ← r; ok (x ∷ xs)

-- Whether the filter lets a host through, and the racks used afterwards. `unwrap` panics on a host
-- that is no node.
unfoldable pub accept :
    {C : Type 0}
    → ReplicationStrategy
    → List (CassandraNode C)
    → List Bytes
    → ℕ
    → Result (Bool × List Bytes)
accept network_topology_strategy nodes racks_used host_id = elim (find_node nodes host_id) [
  | none ↦ panic
  | some node ↦
      if anyb (bytes_eq node.rack) racks_used
      then ok (false, racks_used)
      else ok (true, racks_used ++ node.rack ∷ [])
]
accept _ nodes racks_used host_id = ok (true, racks_used)

-- `.filter(…).take(n)`: the filter runs on a host only while less than `n` are taken.
unfoldable pub walk :
    {C : Type 0}
    → ReplicationStrategy
    → List (CassandraNode C)
    → List ℕ
    → ℕ
    → List Bytes
    → Result (List ℕ)
walk strategy nodes [] n racks_used = ok []
walk strategy nodes (id ∷ ids) zero racks_used = ok []
walk strategy nodes (id ∷ ids) (suc n) racks_used = accept strategy nodes racks_used id >>= λ a.
    elim a.0 [
      | true ↦ cons_result id (walk strategy nodes ids n a.1)
      | false ↦ walk strategy nodes ids (suc n) a.1
    ]

unfoldable pub iter_replica_nodes :
    {C : Type 0} → TokenRing → List (CassandraNode C) → ℕ → KeyspaceMetadata → Result (List ℕ)
iter_replica_nodes ring nodes token keyspace =
    walk keyspace.replication_strategy nodes (ring_range ring token) keyspace.replication_factor []

-- ===== src/Cassandra/NodePool.antt =====
-- shotover/src/transforms/cassandra/sink_cluster/node_pool.rs, with the methods of node.rs that open
-- and drop a connection. A `&mut CassandraNode` into the pool is the node's place in the list of nodes.
pub mod Racks
pub mod Connect
pub mod Accessible
pub mod Updates
mod Tests
use mathlib.Core.Option
use shotover_proxy.Prelude.{
  ℕ, zero, suc, ◌+◌, Bool, true, false, ◌&&◌, List, [], ◌∷◌, ◌++◌, Bytes, bytes_eq, Option, none,
  some, Result, ok, err, panic, ◌>>=◌, ◌==◌, if◌then◌else◌, get_elem?, length, anyb,
}
use shotover_proxy.Cassandra.RoutingKey.{QueryValues, calculate_routing_key}
use shotover_proxy.Cassandra.TokenRing.{
  CassandraNode, KeyspaceMetadata, TokenRing, iter_replica_nodes, new,
}

pub record PreparedMetadata : Type 0 where
  pub pk_indexes : List ℕ
  pub keyspace : Option Bytes

pub data GetReplicaErr : Type 0 where
  no_prepared_metadata no_keyspace_metadata no_node_available other no_routing_key : GetReplicaErr

-- A `Result<A, GetReplicaErr>`
pub data Replica (A : Type 0) : Type 0 where
  replica : A → Replica A
  missed : GetReplicaErr → Replica A

-- A `HashMap` from bytes.
unfoldable pub lookup : {A : Type 0} → Bytes → List (Bytes × A) → Option A
unfolding bytes_eq
lookup k [] = none
lookup k ((j, v) ∷ m) = if bytes_eq j k then some v else lookup k m

unfoldable pub remove_key : {A : Type 0} → Bytes → List (Bytes × A) → List (Bytes × A)
unfolding bytes_eq
remove_key k [] = []
remove_key k ((j, v) ∷ m) =
    let rest = remove_key k m in if bytes_eq j k then rest else (j, v) ∷ rest

pub record NodePool (C : Type 0) : Type 0 where
  pub prepared_metadata : List (Bytes × PreparedMetadata)
  pub keyspace_metadata : List (Bytes × KeyspaceMetadata)
  pub token_map : TokenRing
  pub nodes : List (CassandraNode C)
  pub out_of_rack_requests : ℕ

-- The part of an execute message that the pool reads.
pub record Execute : Type 0 where
  pub id : Bytes
  pub values : Option QueryValues

-- `or_else(…)?` on a lookup.
abbrev pub or_missed :
    {A B : Type 0} → GetReplicaErr → Option A → (A → Result (Replica B)) → Result (Replica B)
or_missed e none f = ok (missed e)
or_missed e (some a) f = f a

module _ {A : Type 0} where
  unfoldable pub set_at : ℕ → A → List A → List A
  set_at i a [] = []
  set_at zero a (x ∷ xs) = a ∷ xs
  set_at (suc i) a (x ∷ xs) = x ∷ set_at i a xs

  -- `slice::swap`, which panics out of bounds.
  abbrev pub swap_found : ℕ → ℕ → Option A → Option A → List A → Result (List A)
  swap_found i j (some a) (some b) xs = ok (set_at i b (set_at j a xs))
  swap_found i j _ _ xs = panic

  unfoldable pub swap : ℕ → ℕ → List A → Result (List A)
  unfolding set_at
  swap i j xs = swap_found i j (get_elem? xs i) (get_elem? xs j) xs

  -- One round of `for i in 0..nodes.len()`, on `nodes[i]`.
  unfoldable pub round : (A → Bool) → ℕ → List A → ℕ → Option A → Result (List A × ℕ)
  unfolding swap
  round in_rack i xs found none = panic
  round in_rack i xs found (some x) =
      if in_rack x then (do ys ← swap i found xs; ok (ys, suc found)) else ok (xs, found)

  -- The rounds from `i` on: how many are left, the list, and how many were found.
  unfoldable pub racks_first : (A → Bool) → ℕ → ℕ → List A → ℕ → Result (List A × ℕ)
  unfolding round
  racks_first in_rack zero i xs found = ok (xs, found)
  racks_first in_rack (suc left) i xs found = do
    (ys, found') ← round in_rack i xs found (get_elem? xs i)
    racks_first in_rack left (suc i) ys found'

module _ {C : Type 0} where
  -- `Clone` of a node
  abbrev pub clone_node : CassandraNode C → CassandraNode C
  clone_node node = record node { outbound = none }

  unfoldable pub clone_nodes : List (CassandraNode C) → List (CassandraNode C)
  clone_nodes [] = []
  clone_nodes (node ∷ nodes) = clone_node node ∷ clone_nodes nodes

  abbrev pub report_issue : CassandraNode C → CassandraNode C
  report_issue node = record node { is_up = false; outbound = none }

  -- `NodePoolBuilder::build`; the metadata is that of the builder.
  unfoldable build : List (Bytes × PreparedMetadata) → NodePool C
  unfolding new
  build prepared_metadata = record {
    prepared_metadata = prepared_metadata;
    keyspace_metadata = [];
    token_map = new {C = C} [];
    nodes = [];
    out_of_rack_requests = 0;
  }

  -- What a connection has received is put behind the responses; `failed` tells whether that failed.
  abbrev received_on :
      {M : Type 0}
      → (C → List M × Bool)
      → CassandraNode C
      → Option C
      → List M
      → CassandraNode C × List M
  received_on recv node none responses = (node, responses)
  received_on recv node (some c) responses =
      let (arrived, failed) = recv c in
      (if failed then report_issue node else node, responses ++ arrived)

  -- `try_recv` and `recv_all_pending` are those of the connection.
  unfoldable try_recv :
      {M : Type 0} → (C → List M × Bool) → CassandraNode C → List M → CassandraNode C × List M
  try_recv connection_try_recv node responses =
      received_on connection_try_recv node node.outbound responses

  unfoldable recv_all_pending :
      {M : Type 0} → (C → List M × Bool) → CassandraNode C → List M → CassandraNode C × List M
  recv_all_pending connection_recv_all node responses =
      received_on connection_recv_all node node.outbound responses

  -- The first node of that host that is up takes the connection.
  unfoldable pub give : C → ℕ → List (CassandraNode C) → List (CassandraNode C)
  give outbound host_id [] = []
  give outbound host_id (n ∷ ns) =
      let rest = give outbound host_id ns in
      if (n.host_id == host_id) && n.is_up
      then record n { outbound = some outbound } ∷ ns
      else n ∷ rest

  unfoldable pub carry : Option C → ℕ → List (CassandraNode C) → List (CassandraNode C)
  unfolding give
  carry none host_id new_nodes = new_nodes
  carry (some outbound) host_id new_nodes = give outbound host_id new_nodes

  -- `for node in self.nodes.drain(..)`
  unfoldable pub carry_all :
      List (CassandraNode C) → List (CassandraNode C) → List (CassandraNode C)
  unfolding carry
  carry_all [] new_nodes = new_nodes
  carry_all (node ∷ nodes) new_nodes = carry_all nodes (carry node.outbound node.host_id new_nodes)

  -- `received` is what the channel of nodes holds.
  unfoldable pub update_nodes : List (CassandraNode C) → NodePool C → NodePool C
  unfolding carry_all clone_nodes
  update_nodes received pool =
      let new_nodes = carry_all pool.nodes (clone_nodes received) in
      record pool { nodes = new_nodes; token_map = new new_nodes }

  unfoldable pub update_keyspaces : List (Bytes × KeyspaceMetadata) → NodePool C → NodePool C
  update_keyspaces received pool = record pool { keyspace_metadata = received }

  unfoldable pub add_prepared_result : Bytes → PreparedMetadata → NodePool C → NodePool C
  unfolding remove_key
  add_prepared_result id metadata pool = record pool {
    prepared_metadata = (id, metadata) ∷ remove_key id pool.prepared_metadata;
  }

  -- The places of the nodes that pass a filter.
  unfoldable pub places : (CassandraNode C → Bool) → ℕ → List (CassandraNode C) → List ℕ
  places keep i [] = []
  places keep i (n ∷ ns) = let rest = places keep (suc i) ns in if keep n then i ∷ rest else rest

  abbrev pub rack_of : Bytes → Option (CassandraNode C) → Bool
  rack_of rack none = false
  rack_of rack (some node) = bytes_eq node.rack rack

  abbrev pub is_replica : List ℕ → CassandraNode C → Bool
  is_replica host_ids node = anyb (λ id. id == node.host_id) host_ids && node.is_up

  -- The hosts of the replicas of the token of an execute message.
  unfoldable pub replica_host_ids : NodePool C → Execute → Result (Replica (List ℕ))
  unfolding lookup calculate_routing_key iter_replica_nodes
  replica_host_ids pool execute =
      or_missed no_prepared_metadata (lookup execute.id pool.prepared_metadata) λ metadata.
        or_missed no_keyspace_metadata metadata.keyspace λ name.
          or_missed no_keyspace_metadata (lookup name pool.keyspace_metadata) λ keyspace.
            or_missed other execute.values λ values. do
              key ← calculate_routing_key metadata.pk_indexes values
              or_missed no_routing_key key λ token. do
                ids ← iter_replica_nodes pool.token_map pool.nodes token keyspace
                ok (replica ids)

  abbrev pub count_out_of_rack : ℕ → NodePool C → NodePool C
  count_out_of_rack zero pool = record pool { out_of_rack_requests = pool.out_of_rack_requests + 1 }
  count_out_of_rack (suc n) pool = pool

  -- `shuffle` is that of the random numbers.
  unfoldable pub order_replicas :
      (List ℕ → List ℕ)
      → Bytes
      → NodePool C
      → Replica (List ℕ)
      → Result (NodePool C × Replica (List ℕ))
  unfolding racks_first places bytes_eq
  order_replicas shuffle rack pool (missed e) = ok (pool, missed e)
  order_replicas shuffle rack pool (replica ids) = do
    let nodes = shuffle (places (is_replica ids) 0 pool.nodes)
    (ordered, nodes_found_in_rack) ←
        racks_first (λ i. rack_of rack (get_elem? pool.nodes i)) (length nodes) 0 nodes 0
    ok (count_out_of_rack nodes_found_in_rack pool, replica ordered)

  unfoldable pub get_replica_node_in_dc :
      (List ℕ → List ℕ) → Execute → Bytes → NodePool C → Result (NodePool C × Replica (List ℕ))
  unfolding replica_host_ids order_replicas
  get_replica_node_in_dc shuffle execute rack pool = do
    ids ← replica_host_ids pool execute
    order_replicas shuffle rack pool ids

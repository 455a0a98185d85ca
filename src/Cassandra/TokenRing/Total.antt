-- ===== src/Cassandra/TokenRing/Total.antt =====
-- `iter_replica_nodes` on the ring of the nodes that it is asked about.
use shotover_proxy.Prelude.{
  ℕ, ◌≡◌, ◌≢◌, refl, inl, inr, Bool-cases, List, [], ◌∷◌, ◌++◌, map, ok, arith, ◌==◌, take, All,
  All-append, All-take, All-drop,
}
use shotover_proxy.Cassandra.TokenRing.{
  CassandraNode, network_topology_strategy, KeyspaceMetadata, insert, sort_by_key, entries,
  find_node, ring_range, iter_replica_nodes, new,
}
use shotover_proxy.Cassandra.TokenRing.Replicas.{Known, Picked, walk-Picked, walk_other}

abbrev hosts_of : List (ℕ × ℕ) → List ℕ
hosts_of = map (λ e. e.1)

insert-All :
    (P : ℕ → Type 0) (x : ℕ × ℕ) (ys : List (ℕ × ℕ))
    → P (x.1)
    → All P (hosts_of ys)
    → All P (hosts_of (insert x ys))
unfolding insert
insert-All P x [] h k = (h, tt)
insert-All P x (y ∷ ys) h k = ground (arith, insert-All P x ys h k.1)

sort_by_key-All :
    (P : ℕ → Type 0) (xs : List (ℕ × ℕ)) → All P (hosts_of xs) → All P (hosts_of (sort_by_key xs))
unfolding sort_by_key
sort_by_key-All P [] h = tt
sort_by_key-All P (x ∷ xs) h = insert-All P x (sort_by_key xs) h.0 (sort_by_key-All P xs h.1)

tokens-All :
    (P : ℕ → Type 0) (host : ℕ) (tokens : List ℕ) (rest : List (ℕ × ℕ))
    → P host
    → All P (hosts_of rest)
    → All P (hosts_of (map (λ t. (t, host)) tokens ++ rest))
tokens-All P host [] rest h k = k
tokens-All P host (t ∷ tokens) rest h k = (h, tokens-All P host tokens rest h k)

All-map : (P Q : ℕ → Type 0) (xs : List ℕ) → ((x : ℕ) → P x → Q x) → All P xs → All Q xs
All-map P Q [] f h = tt
All-map P Q (x ∷ xs) f h = (f x h.0, All-map P Q xs f h.1)

module _ {C : Type 0} where
  Known-cons :
      (node : CassandraNode C) (nodes : List (CassandraNode C)) (id : ℕ)
      → Known nodes id
      → Known (node ∷ nodes) id
  unfolding find_node
  Known-cons node nodes id (m, e) = elim (Bool-cases (node.host_id == id)) [
    | inl hit ↦ (node, rw hit refl)
    | inr miss ↦ (m, rw miss e)
  ]

  Known-head :
      (node : CassandraNode C) (nodes : List (CassandraNode C)) → Known (node ∷ nodes) node.host_id
  unfolding find_node
  Known-head node nodes = (node, ground arith)

  entries-Known : (nodes : List (CassandraNode C)) → All (Known nodes) (hosts_of (entries nodes))
  unfolding entries
  entries-Known [] = tt
  entries-Known (node ∷ nodes) =
      tokens-All (Known (node ∷ nodes)) node.host_id node.tokens (entries nodes)
        (Known-head node nodes)
        (All-map (Known nodes) (Known (node ∷ nodes)) _ (Known-cons node nodes)
          (entries-Known nodes))

  ring_range-Known :
      (nodes : List (CassandraNode C)) (token : ℕ)
      → All (Known nodes) (ring_range (new nodes) token)
  unfolding ring_range new
  ring_range-Known nodes token =
      let outs : List ℕ = hosts_of (sort_by_key (entries nodes)) in
      let all = sort_by_key-All (Known nodes) (entries nodes) (entries-Known nodes) in
      All-take (Known nodes) _ _
        (All-append (Known nodes) _ outs (All-drop (Known nodes) _ outs all) all)

-- With the network topology strategy, for all nodes and every token: the walk returns (it never
-- meets a host that is no node) at most `replication_factor` hosts, in ring order, in pairwise
-- different racks; and if it returns fewer, then every host of the ring lies in one of their racks.
pub iter_replica_nodes_network :
    {C : Type 0} (nodes : List (CassandraNode C)) (token : ℕ) (keyspace : KeyspaceMetadata)
    → keyspace.replication_strategy ≡ network_topology_strategy
    → (p : Picked nodes (ring_range (new nodes) token) keyspace.replication_factor [])
      × (iter_replica_nodes (new nodes) nodes token keyspace ≡ ok p.hosts)
unfolding iter_replica_nodes
iter_replica_nodes_network nodes token keyspace e =
    let p =
      walk-Picked nodes (ring_range (new nodes) token) keyspace.replication_factor []
        (ring_range-Known nodes token) in
    (p, rw e p.returned)

-- With any other strategy the walk returns the first `replication_factor` hosts of the range.
pub iter_replica_nodes_other :
    {C : Type 0} (nodes : List (CassandraNode C)) (token : ℕ) (keyspace : KeyspaceMetadata)
    → keyspace.replication_strategy ≢ network_topology_strategy
    → iter_replica_nodes (new nodes) nodes token keyspace
      ≡ ok (take keyspace.replication_factor (ring_range (new nodes) token))
unfolding iter_replica_nodes
iter_replica_nodes_other nodes token keyspace h =
    walk_other nodes keyspace.replication_strategy _ keyspace.replication_factor [] h

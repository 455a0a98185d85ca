-- ===== src/Cassandra/NodePool/Connect.antt =====
-- Opening connections to the nodes of a pool: `get_accessible_node` and what calls it.
use shotover_proxy.Prelude.{
  ℕ, Bool, true, false, ◌&&◌, List, [], ◌∷◌, Bytes, bytes_eq, Option, none, some, Result, ok, err,
  panic, get_elem?,
}
use shotover_proxy.Prelude.Stateful.{Step, ◌>>=◌}
use shotover_proxy.Cassandra.TokenRing.{CassandraNode}
use shotover_proxy.Cassandra.NodePool.{
  NodePool, Execute, Replica, replica, missed, no_node_available, report_issue, set_at, places,
  get_replica_node_in_dc,
}

-- `new_connection` is that of the connection factory: what it does to the outside, and the connection
-- to an address if one can be made.
module _ {C : Type 0} {W : Type 0} (new_connection : W → ℕ → W × Option C) where
  pub record Opening : Type 0 where
    pub world : W
    pub nodes : List (CassandraNode C)

  abbrev pub Do : Type 0 → Type 0
  Do A = Step Opening A

  abbrev pub opened : CassandraNode C → W × Option C → W × CassandraNode C × Bool
  opened node (w, none) = (w, node, false)
  opened node (w, some c) = (w, record node { outbound = some c }, true)

  abbrev pub or_open : Option C → W → CassandraNode C → W × CassandraNode C × Bool
  or_open (some c) w node = (w, node, true)
  or_open none w node = opened node (new_connection w node.address)

  -- `CassandraNode::get_connection`, and whether there is a connection.
  unfoldable pub get_connection : W → CassandraNode C → W × CassandraNode C × Bool
  get_connection w node = or_open node.outbound w node

  -- `match node.get_connection(…)`: `rest` is the loop behind it.
  abbrev pub tried : ℕ → Do ℕ → W × CassandraNode C × Bool → Do ℕ
  tried place rest (w, node, true) s =
      (record { world = w; nodes = set_at place node s.nodes }, ok place)
  tried place rest (w, node, false) s =
      rest (record { world = w; nodes = set_at place (report_issue node) s.nodes })

  abbrev pub try_node : ℕ → Do ℕ → Option (CassandraNode C) → Do ℕ
  try_node place rest none s = (s, panic)
  try_node place rest (some node) s = tried place rest (get_connection s.world node) s

  unfoldable pub get_accessible_node : List ℕ → Do ℕ
  unfolding get_connection set_at
  get_accessible_node [] s =
      (s, err "Attempted to open a connection to one of multiple nodes but all attempts failed")
  get_accessible_node (place ∷ rest) s =
      try_node place (get_accessible_node rest) (get_elem? s.nodes place) s

  -- `expect` on the connection of a node.
  abbrev pub expect_outbound : Option (CassandraNode C) → Result C
  expect_outbound none = panic
  expect_outbound (some node) = elim node.outbound [ none ↦ panic | some c ↦ ok c ]

  unfoldable pub outbound_at : ℕ → Do C
  outbound_at place s = (s, expect_outbound (get_elem? s.nodes place))

  -- `outbound.take()` and the address.
  abbrev pub take_from : ℕ → Option (CassandraNode C) → Do (C × ℕ)
  take_from place none s = (s, panic)
  take_from place (some node) s = elim node.outbound [
    | none ↦ (s, panic)
    | some c ↦ (
      record s { nodes = set_at place (record node { outbound = none }) s.nodes },
      ok (c, node.address),
    )
  ]

  unfoldable pub take_outbound : ℕ → Do (C × ℕ)
  unfolding set_at
  take_outbound place s = take_from place (get_elem? s.nodes place) s

  abbrev pub up_in_rack : Bytes → CassandraNode C → Bool
  up_in_rack rack node = node.is_up && bytes_eq node.rack rack

  unfoldable pub get_random_node_in_dc_rack : (List ℕ → List ℕ) → Bytes → Do ℕ
  unfolding get_accessible_node places bytes_eq
  get_random_node_in_dc_rack shuffle rack s =
      get_accessible_node (shuffle (places (up_in_rack rack) 0 s.nodes)) s

  unfoldable pub get_random_connection_in_dc_rack : (List ℕ → List ℕ) → Bytes → Do C
  unfolding get_random_node_in_dc_rack outbound_at
  get_random_connection_in_dc_rack shuffle rack = do
    place ← get_random_node_in_dc_rack shuffle rack
    outbound_at place

  unfoldable pub get_random_owned_connection_in_dc_rack : (List ℕ → List ℕ) → Bytes → Do (C × ℕ)
  unfolding get_random_node_in_dc_rack take_outbound
  get_random_owned_connection_in_dc_rack shuffle rack = do
    place ← get_random_node_in_dc_rack shuffle rack
    take_outbound place

  unfoldable pub get_accessible_owned_connection : List ℕ → Do (C × ℕ)
  unfolding get_accessible_node take_outbound
  get_accessible_owned_connection nodes = do place ← get_accessible_node nodes; take_outbound place

  -- `get_replica_connection_in_dc`, on what `get_replica_node_in_dc` has returned.
  abbrev pub replica_or : Opening × Result C → Opening × Result (Replica C)
  replica_or (s, ok c) = (s, ok (replica c))
  replica_or (s, err e) = (s, ok (missed no_node_available))
  replica_or (s, panic) = (s, panic)

  abbrev pub connect_replica : Replica (List ℕ) → Do (Replica C)
  connect_replica (missed e) s = (s, ok (missed e))
  connect_replica (replica nodes) s = replica_or ((get_accessible_node nodes >>= outbound_at) s)

  abbrev pub back_in :
      NodePool C → Opening × Result (Replica C) → Result (NodePool C × W × Replica C)
  back_in pool (s, ok c) = ok (record pool { nodes = s.nodes }, s.world, c)
  back_in pool (s, err e) = err e
  back_in pool (s, panic) = panic

  abbrev pub replica_in :
      W → Result (NodePool C × Replica (List ℕ)) → Result (NodePool C × W × Replica C)
  replica_in w (ok (pool, r)) =
      back_in pool (connect_replica r (record { world = w; nodes = pool.nodes }))
  replica_in w (err e) = err e
  replica_in w panic = panic

  unfoldable pub get_replica_connection_in_dc :
      (List ℕ → List ℕ) → Execute → Bytes → W → NodePool C → Result (NodePool C × W × Replica C)
  unfolding get_replica_node_in_dc get_accessible_node outbound_at
  get_replica_connection_in_dc shuffle execute rack w pool =
      replica_in w (get_replica_node_in_dc shuffle execute rack pool)

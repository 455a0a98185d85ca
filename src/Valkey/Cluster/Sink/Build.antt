-- ===== src/Valkey/Cluster/Sink/Build.antt =====
-- `build_connections` and what it calls.
use shotover_proxy.Prelude.{
  ℕ, false, not, List, [], ◌∷◌, ◌++◌, Bytes, codes, Option, none, some, Result, ok, err, panic,
  if◌then◌else◌, is_empty, ◌&&◌,
}
use shotover_proxy.Prelude.Stateful.{◌>>=◌, done, result_of}
use shotover_proxy.Message.Frame.{Protocols, Frame, valkey_frame}
use shotover_proxy.Message.State.{Message, from_frame_at_instant, frame}
use shotover_proxy.Valkey.Frame.{error, bulk_string, array, cons, nil, to_list}
use shotover_proxy.Valkey.Errors.{
  TransformError, upstream, protocol, other, not_authenticated, from_message,
  choose_upstream_or_first,
}
use shotover_proxy.Valkey.Cluster.Slots.{SlotMap, SlotTree}
use shotover_proxy.Valkey.Cluster.Slots.Parse.{parse_slots}
use shotover_proxy.Valkey.Cluster.Sink.{
  Token, Response, Attempt, reached, refused, Nodes, ChannelMap, insert_channels, Topology,
  ValkeySinkCluster, Do, outside,
}

abbrev pub hosts_of : SlotTree → List Bytes
hosts_of [] = []
hosts_of ((slot, host) ∷ m) = host ∷ hosts_of m

module _ (P : Protocols) (nodes : Nodes P) (fresh : ℕ) where
  abbrev pub Sink : Type 0
  Sink = ValkeySinkCluster P nodes fresh

  unfoldable pub latest_contact_points : Sink → List Bytes
  latest_contact_points s =
      if not (is_empty s.topology.slots.nodes)
      then s.topology.slots.nodes
      else s.first_contact_points

  unfoldable pub cluster_slots : Message P
  unfolding from_frame_at_instant
  cluster_slots =
      from_frame_at_instant P fresh
        (valkey_frame
          (array (cons (bulk_string (codes "CLUSTER")) (cons (bulk_string (codes "SLOTS")) nil))))
        none

  abbrev pub parsed_slots : Result SlotMap → Result (Attempt SlotMap)
  parsed_slots (ok slots) = ok (reached slots)
  parsed_slots (err e) = ok (refused (protocol e))
  parsed_slots panic = panic

  -- `match receive_frame_response(…) { … }`
  unfoldable pub topology_answer : Option (Frame P) → Result (Attempt SlotMap)
  unfolding parse_slots from_message to_list
  topology_answer (some (valkey_frame (array results))) =
      parsed_slots (parse_slots (to_list results))
  topology_answer (some (valkey_frame (error message))) =
      ok (refused (upstream (from_message message)))
  topology_answer (some (valkey_frame _)) =
      ok (refused (protocol "unexpected response for cluster slots to be an array but was not"))
  topology_answer none = ok (refused (other "Failed to parse valkey frame"))
  topology_answer (some _) = ok (refused (other "Expected valkey response but was not valkey."))

  unfoldable pub answered_frame : Result (Message P × Option (Frame P)) → Result (Attempt SlotMap)
  unfolding topology_answer
  answered_frame (ok (m, f)) = topology_answer f
  answered_frame (err e) = ok (refused (other e))
  answered_frame panic = panic

  unfoldable pub topology_response : Option (Response P) → Result (Attempt SlotMap)
  unfolding answered_frame frame
  topology_response none = ok (refused (other "channel closed"))
  topology_response (some (err e)) = ok (refused (other e))
  topology_response (some panic) = panic
  topology_response (some (ok (err e))) = ok (refused (other e))
  topology_response (some (ok panic)) = panic
  topology_response (some (ok (ok m))) = answered_frame (frame P m)

  -- `get_topology_from_node`, on the connection that was made.
  unfoldable pub topology_from : Attempt nodes.Connection → Do P nodes fresh (Attempt SlotMap)
  unfolding topology_response cluster_slots
  topology_from (refused e) = done (refused e)
  topology_from (reached c) = do
    response ← outside P nodes fresh (λ w. nodes.send w c cluster_slots)
    result_of (topology_response response)

  -- One contact point.
  unfoldable pub fetch_from : Option Token → Bytes → Do P nodes fresh (Attempt SlotMap)
  unfolding topology_from
  fetch_from token address = do
    connection ← outside P nodes fresh (λ w. nodes.new_unpooled_connection w address token)
    topology_from connection

  unfoldable pub all_refused : List TransformError → Result (Attempt SlotMap)
  unfolding choose_upstream_or_first
  all_refused errors = elim (choose_upstream_or_first errors) [
    | none ↦ panic
    | some e ↦ ok (refused e)
  ]

  -- The contact points in the order in which they answer; the first slot map is taken.
  abbrev pub fetched_or :
      List TransformError
      → (List TransformError → Do P nodes fresh (Attempt SlotMap))
      → Attempt SlotMap
      → Do P nodes fresh (Attempt SlotMap)
  fetched_or errors rest (reached slots) = done (reached slots)
  fetched_or errors rest (refused e) = rest (errors ++ e ∷ [])

  unfoldable pub fetch_all :
      Option Token → List Bytes → List TransformError → Do P nodes fresh (Attempt SlotMap)
  unfolding fetch_from all_refused
  fetch_all token [] errors = result_of (all_refused errors)
  fetch_all token (a ∷ as_) errors = do
    attempt ← fetch_from token a
    fetched_or errors (fetch_all token as_) attempt

  unfoldable pub fetch_slot_map : Option Token → Do P nodes fresh (Attempt SlotMap)
  unfolding fetch_all latest_contact_points
  fetch_slot_map token s = fetch_all token (nodes.answering s.world (latest_contact_points s)) [] s

  abbrev pub Joined : Type 0
  Joined = ChannelMap P nodes fresh × List TransformError

  unfoldable pub joined : Bytes → Joined → Attempt (List nodes.Connection) → Joined
  unfolding insert_channels
  joined host (channels, errors) (reached cs) =
      (insert_channels P nodes fresh host cs channels, errors)
  joined host (channels, errors) (refused e) = (channels, errors ++ e ∷ [])

  -- `for node in …`
  unfoldable pub connect_nodes : Option Token → List Bytes → Joined → Do P nodes fresh Joined
  unfolding joined
  connect_nodes token [] j = done j
  connect_nodes token (host ∷ hosts) j = do
    attempt ←
        (λ s. outside P nodes fresh (λ w. nodes.get_connections w host token s.connection_count) s)
    connect_nodes token hosts (joined host j attempt)

  abbrev pub Built : Type 0
  Built = Attempt (SlotMap × ChannelMap P nodes fresh)

  abbrev pub no_channels : Option TransformError → Result Built
  no_channels none = panic
  no_channels (some e) = ok (refused e)

  unfoldable pub built_of : SlotMap → Joined → Result Built
  unfolding choose_upstream_or_first
  built_of slots (channels, errors) =
      if is_empty channels && not (is_empty errors)
      then no_channels (choose_upstream_or_first errors)
      else ok (reached (slots, channels))

  unfoldable pub connect_all : Option Token → Attempt SlotMap → Do P nodes fresh Built
  unfolding connect_nodes built_of
  connect_all token (refused e) = done (refused e)
  connect_all token (reached slots) = do
    j ← connect_nodes token (hosts_of slots.masters ++ hosts_of slots.replicas) ([], [])
    result_of (built_of slots j)

  unfoldable pub build_connections_inner : Option Token → Do P nodes fresh Built
  unfolding fetch_slot_map connect_all
  build_connections_inner token = do slots ← fetch_slot_map token; connect_all token slots

  abbrev pub shared_by :
      Option Token → Topology P nodes fresh → Topology P nodes fresh → Topology P nodes fresh
  shared_by none old new = new
  shared_by (some token) old new = old

  abbrev pub adopt : Option Token → Built → Do P nodes fresh (Attempt (Unit {0}))
  adopt token (reached (slots, channels)) s = (
    record s {
      topology = record { slots = slots; channels = channels };
      shared_topology =
          shared_by token s.shared_topology (record { slots = slots; channels = channels });
      token = token;
      reason_for_no_nodes = none;
      rebuild_connections = false;
    },
    ok (reached tt),
  )
  adopt token (refused (upstream not_authenticated)) s = (
    record s {
      reason_for_no_nodes = some (codes "NOAUTH Authentication required (cached)");
      rebuild_connections = false;
    },
    ok (refused (upstream not_authenticated)),
  )
  adopt token (refused e) s = (s, ok (refused e))

  unfoldable pub build_connections : Option Token → Do P nodes fresh (Attempt (Unit {0}))
  unfolding build_connections_inner
  build_connections token = do built ← build_connections_inner token; adopt token built

-- ===== src/Valkey/Cluster/Sink/KeptBuilding.antt =====
-- What the building of connections with a token does to the topology that connections share.
use shotover_proxy.Prelude.{ℕ, refl, List, [], ◌∷◌, ◌++◌, Bytes, Option, some}
use shotover_proxy.Prelude.Stateful.{result_of}
use shotover_proxy.Message.Frame.{Protocols}
use shotover_proxy.Valkey.Errors.{
  TransformError, upstream, protocol, other, not_authenticated, not_authorized, bad_credentials,
  other_error,
}
use shotover_proxy.Valkey.Cluster.Slots.{SlotMap}
use shotover_proxy.Valkey.Cluster.Sink.{
  Token, Attempt, reached, refused, Nodes, ValkeySinkCluster, Do, outside,
}
use shotover_proxy.Valkey.Cluster.Sink.Build.{
  fetch_from, topology_from, fetched_or, fetch_all, fetch_slot_map, connect_nodes, connect_all,
  build_connections_inner, adopt, Built, Joined, joined, hosts_of, build_connections,
  latest_contact_points, topology_response, built_of,
}
use shotover_proxy.Valkey.Cluster.Sink.Topologies.{
  Keeps, each, bind-Keeps, same-Keeps, outside-Keeps, reads-Keeps,
}

module _ (P : Protocols) (nodes : Nodes P) (fresh : ℕ) where
  abbrev Sink : Type 0
  Sink = ValkeySinkCluster P nodes fresh

  abbrev Kept : {A : Type 0} → Do P nodes fresh A → Type 0
  Kept = Keeps P nodes fresh

  topology_from-Keeps : (c : Attempt nodes.Connection) → Kept (topology_from P nodes fresh c)
  unfolding topology_from
  topology_from-Keeps (refused e) = same-Keeps P nodes fresh _
  topology_from-Keeps (reached c) =
      bind-Keeps P nodes fresh _ (λ r. result_of (topology_response P nodes fresh r))
        (outside-Keeps P nodes fresh _) (λ r. same-Keeps P nodes fresh _)

  fetch_from-Keeps :
      (token : Option Token) (address : Bytes) → Kept (fetch_from P nodes fresh token address)
  unfolding fetch_from
  fetch_from-Keeps token address =
      bind-Keeps P nodes fresh _ _ (outside-Keeps P nodes fresh _) topology_from-Keeps

  fetch_all-Keeps :
      (token : Option Token) (addresses : List Bytes) (errors : List TransformError)
      → Kept (fetch_all P nodes fresh token addresses errors)
  unfolding fetch_all
  fetch_all-Keeps token [] errors = same-Keeps P nodes fresh _
  fetch_all-Keeps token (a ∷ addresses) errors =
      bind-Keeps P nodes fresh _ _ (fetch_from-Keeps token a)
        (behind (fetch_all-Keeps token addresses))
    where
      behind :
          ((es : List TransformError) → Kept (fetch_all P nodes fresh token addresses es))
          → (t : Attempt SlotMap)
          → Kept (fetched_or P nodes fresh errors (fetch_all P nodes fresh token addresses) t)
      behind rest (reached slots) = same-Keeps P nodes fresh _
      behind rest (refused e) = rest (errors ++ e ∷ [])

  connect_nodes-Keeps :
      (token : Option Token) (hosts : List Bytes) (j : Joined P nodes fresh)
      → Kept (connect_nodes P nodes fresh token hosts j)
  unfolding connect_nodes
  connect_nodes-Keeps token [] j = same-Keeps P nodes fresh _
  connect_nodes-Keeps token (host ∷ hosts) j =
      bind-Keeps P nodes fresh
        (λ s. outside P nodes fresh (λ w. nodes.get_connections w host token s.connection_count) s)
        (λ attempt. connect_nodes P nodes fresh token hosts (joined P nodes fresh host j attempt))
        (each P nodes fresh _ (λ s. (refl, λ h. h))) (λ attempt. connect_nodes-Keeps token hosts _)

  build_connections_inner-Keeps :
      (token : Option Token) → Kept (build_connections_inner P nodes fresh token)
  unfolding build_connections_inner fetch_slot_map connect_all
  build_connections_inner-Keeps token =
      bind-Keeps P nodes fresh _ _
        (reads-Keeps P nodes fresh
          (λ s.
            fetch_all P nodes fresh token
              (nodes.answering s.world (latest_contact_points P nodes fresh s)) [])
          (λ s. fetch_all-Keeps token _ []))
        connected
    where
      connected : (a : Attempt SlotMap) → Kept (connect_all P nodes fresh token a)
      connected (refused e) = same-Keeps P nodes fresh _
      connected (reached slots) =
          bind-Keeps P nodes fresh _ (λ j. result_of (built_of P nodes fresh slots j))
            (connect_nodes-Keeps token (hosts_of slots.masters ++ hosts_of slots.replicas) ([], []))
            (λ j. same-Keeps P nodes fresh _)

  adopt-Keeps : (t : Token) (b : Built P nodes fresh) → Kept (adopt P nodes fresh (some t) b)
  adopt-Keeps t (reached (slots, channels)) = each P nodes fresh _ (λ s. (refl, λ h. λ e. cc))
  adopt-Keeps t (refused (upstream not_authenticated)) = each P nodes fresh _ (λ s. (refl, λ h. h))
  adopt-Keeps t (refused (upstream not_authorized)) = same-Keeps P nodes fresh _
  adopt-Keeps t (refused (upstream bad_credentials)) = same-Keeps P nodes fresh _
  adopt-Keeps t (refused (upstream (other_error e))) = same-Keeps P nodes fresh _
  adopt-Keeps t (refused (protocol e)) = same-Keeps P nodes fresh _
  adopt-Keeps t (refused (other e)) = same-Keeps P nodes fresh _

  pub build_connections-Keeps : (t : Token) → Kept (build_connections P nodes fresh (some t))
  unfolding build_connections
  build_connections-Keeps t =
      bind-Keeps P nodes fresh _ _ (build_connections_inner-Keeps (some t)) (adopt-Keeps t)

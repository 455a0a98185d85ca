-- ===== src/Valkey/Cluster/Sink.antt =====
-- `ValkeySinkCluster`: its state, and `choose_and_send`.
pub mod Build
pub mod Dispatch
pub mod Responses
pub mod Topologies
pub mod KeptBuilding
pub mod KeptCalls
pub mod Sharing
pub mod Redirects
mod Tests
use mathlib.Core.Option
use shotover_proxy.Prelude.{
  ℕ, ◌+◌, Bool, true, false, not, List, [], ◌∷◌, ◌++◌, Bytes, codes, bytes_eq, String, Option, none,
  some, Result, ok, err, panic, if◌then◌else◌, get_elem?, leb, ◌==◌, ◌&&◌, length,
}
use shotover_proxy.Prelude.Stateful.{Step, ◌>>=◌, done, result_of, modify, look, and_then}
use shotover_proxy.Message.Frame.{Protocols, Frame, valkey_frame}
use shotover_proxy.Message.State.{Message, from_frame_at_instant}
use shotover_proxy.Valkey.Frame.{ValkeyFrame, error}
use shotover_proxy.Valkey.Errors.{TransformError}
use shotover_proxy.Valkey.Cluster.Slots.{SlotMap}

-- `UsernamePasswordToken`
pub record Token : Type 0 where
  pub username : Option Bytes
  pub password : Bytes

-- What a future gives when it is awaited: the channel may be lost, and the response be an error.
abbrev pub Response : Protocols → Type 0
Response P = Result (Result (Message P))

pub data Attempt (A : Type 0) : Type 0 where
  reached : A → Attempt A
  refused : TransformError → Attempt A

-- The nodes, their connections and the random choices: what the sink calls. A request that a node
-- takes gives the response that will come.
pub record Nodes (P : Protocols) : Type 1 where
  pub World : Type 0
  pub Connection : Type 0
  pub is_closed : World → Connection → Bool
  pub send : World → Connection → Message P → World × Option (Response P)
  pub get_connections : World → Bytes → Option Token → ℕ → World × Attempt (List Connection)
  pub new_unpooled_connection : World → Bytes → Option Token → World × Attempt Connection
  pub answering : World → List Bytes → List Bytes
  pub in_time : World → Bytes → Bool
  pub sample : World → ℕ → World × (ℕ × ℕ)
  pub choose : World → List Bytes → World × Option Bytes
  pub arrival : World → List (Response P) → World × List (Response P)

-- `fresh` is the number that `rand::random` draws for a message of the sink; the sink reads no ids.
module _ (P : Protocols) (nodes : Nodes P) (fresh : ℕ) where
  -- `HashMap<String, Vec<UnboundedSender<Request>>>`
  abbrev pub ChannelMap : Type 0
  ChannelMap = List (Bytes × List nodes.Connection)

  unfoldable pub channels_of : Bytes → ChannelMap → Option (List nodes.Connection)
  unfolding bytes_eq
  channels_of host [] = none
  channels_of host ((h, cs) ∷ m) = if bytes_eq h host then some cs else channels_of host m

  unfoldable pub remove_channels : Bytes → ChannelMap → ChannelMap
  unfolding bytes_eq
  remove_channels host [] = []
  remove_channels host ((h, cs) ∷ m) =
      let rest = remove_channels host m in if bytes_eq h host then rest else (h, cs) ∷ rest

  unfoldable pub insert_channels : Bytes → List nodes.Connection → ChannelMap → ChannelMap
  unfolding remove_channels
  insert_channels host cs m = (host, cs) ∷ remove_channels host m

  pub record Topology : Type 0 where
    pub slots : SlotMap
    pub channels : ChannelMap

  abbrev pub LoadScores : Type 0
  LoadScores = List (Bytes × ℕ × ℕ)

  pub record ValkeySinkCluster : Type 0 where
    pub has_run_init : Bool
    pub topology : Topology
    pub shared_topology : Topology
    pub direct_connection : Option nodes.Connection
    pub load_scores : LoadScores
    pub connection_count : ℕ
    pub reason_for_no_nodes : Option Bytes
    pub rebuild_connections : Bool
    pub first_contact_points : List Bytes
    pub direct_destination : Option Bytes
    pub token : Option Token
    pub failed_requests : ℕ
    pub world : nodes.World

  abbrev pub Do : Type 0 → Type 0
  Do A = Step ValkeySinkCluster A

  -- A call of the nodes.
  abbrev pub outside : {A : Type 0} → (nodes.World → nodes.World × A) → Do A
  outside f s = (record s { world = (f s.world).0 }, ok (f s.world).1)

  -- A response that is there at once.
  unfoldable pub short_circuit : ValkeyFrame → Do (Response P)
  short_circuit f = done (ok (ok (from_frame_at_instant P fresh (valkey_frame f) none)))

  unfoldable pub send_error_response : Bytes → Do (Response P)
  unfolding short_circuit
  send_error_response text = do
    counted ← modify (λ s. record s { failed_requests = s.failed_requests + 1 })
    short_circuit (error text)

  unfoldable pub short_circuit_with_error : Do (Response P)
  unfolding short_circuit
  short_circuit_with_error = short_circuit (
      error
        (codes "ERR Shotover ValkeySinkCluster does not not support this command used in this way"))

  -- `entry((host, i)).or_insert(0)`
  unfoldable pub load_of : Bytes → ℕ → LoadScores → Option ℕ
  unfolding bytes_eq
  load_of host i [] = none
  load_of host i ((h, j, load) ∷ scores) =
      if bytes_eq h host && (j == i) then some load else load_of host i scores

  abbrev pub or_insert : Bytes → ℕ → Option ℕ → Do ℕ
  or_insert host i (some load) = done load
  or_insert host i none = do
    added ← modify (λ s. record s { load_scores = (host, i, 0) ∷ s.load_scores })
    done 0

  unfoldable pub load_entry : Bytes → ℕ → Do ℕ
  unfolding load_of
  load_entry host i s = or_insert host i (load_of host i s.load_scores) s

  -- Two connections are drawn, and the one with less load is taken.
  unfoldable pub draw_two : Bytes → List nodes.Connection → Do (Option nodes.Connection)
  unfolding load_entry
  draw_two host channels = do
    candidates ← outside (λ w. nodes.sample w (length channels))
    aload ← load_entry host candidates.0
    bload ← load_entry host candidates.1
    done (get_elem? channels (if leb aload bload then candidates.0 else candidates.1))

  unfoldable pub pick_of : Bytes → Option (List nodes.Connection) → Do (Option nodes.Connection)
  unfolding draw_two
  pick_of host (some (c ∷ [])) = done (some c)
  pick_of host (some (c ∷ d ∷ cs)) = draw_two host (c ∷ d ∷ cs)
  pick_of host _ = done none

  -- `filter(|channel| !channel.is_closed())`
  abbrev pub open_one : Option nodes.Connection → Do (Option nodes.Connection)
  open_one none s = (s, ok none)
  open_one (some c) s = (s, ok (if nodes.is_closed s.world c then none else some c))

  unfoldable pub pick : Bytes → Do (Option nodes.Connection)
  unfolding pick_of channels_of draw_two
  pick host s = (pick_of host (channels_of host s.topology.channels) >>= open_one) s

  -- New connections to the host take the place of the old; the first is used. `timeout` is `in_time`.
  abbrev pub connected : Bytes → Attempt (List nodes.Connection) → Do (Option nodes.Connection)
  connected host (reached []) s = (s, panic)
  connected host (reached (c ∷ cs)) s = (
    record s {
      topology = record s.topology { channels = insert_channels host (c ∷ cs) s.topology.channels };
    },
    ok (some c),
  )
  connected host (refused e) s = (record s { rebuild_connections = true }, ok none)

  unfoldable pub connect : Bytes → Do (Option nodes.Connection)
  unfolding insert_channels
  connect host s =
      if nodes.in_time s.world host
      then (outside (λ w. nodes.get_connections w host s.token s.connection_count)
            >>= connected host)
          s
      else (record s { rebuild_connections = true }, ok none)

  unfoldable pub or_connect : Bytes → Option nodes.Connection → Do (Option nodes.Connection)
  unfolding connect
  or_connect host (some c) = done (some c)
  or_connect host none = connect host

  -- `if channel.send(…).is_err() { … }`
  unfoldable pub sent_to : Bytes → Option (Response P) → Do (Response P)
  unfolding remove_channels short_circuit_with_error
  sent_to host (some response) = done response
  sent_to host none = do
    forgotten ← modify (λ s. record s {
      rebuild_connections = true;
      topology = record s.topology { channels = remove_channels host s.topology.channels };
    })
    short_circuit_with_error

  unfoldable pub deliver : Bytes → Message P → Option nodes.Connection → Do (Response P)
  unfolding short_circuit_with_error sent_to
  deliver host message none = short_circuit_with_error
  deliver host message (some c) = do
    response ← outside (λ w. nodes.send w c message)
    sent_to host response

  unfoldable pub choose_and_send : Bytes → Message P → Do (Response P)
  unfolding pick or_connect deliver connect
  choose_and_send host message = do
    picked ← pick host
    channel ← or_connect host picked
    deliver host message channel

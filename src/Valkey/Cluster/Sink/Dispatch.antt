-- ===== src/Valkey/Cluster/Sink/Dispatch.antt =====
-- `dispatch_message`: a request is sent to the nodes that its routing names.
use mathlib.Core.List.{reverse}
use shotover_proxy.Prelude.{
  ℕ, List, [], ◌∷◌, Bytes, String, codes, Option, none, some, Result, ok, err, panic, drop,
}
use shotover_proxy.Prelude.Stateful.{◌>>=◌, done, result_of}
use shotover_proxy.Message.Frame.{Protocols, Frame, valkey_frame}
use shotover_proxy.Message.State.{Message, from_frame_at_instant, frame}
use shotover_proxy.Valkey.Frame.{
  ValkeyFrame, error, bulk_string, simple_string, array, null, to_list,
}
use shotover_proxy.Valkey.Errors.{upstream, not_authorized, bad_credentials, show_error}
use shotover_proxy.Valkey.Cluster.Slots.{range_first}
use shotover_proxy.Valkey.Cluster.Routing.{
  RoutingInfo, slot, auth, all_nodes, all_masters, random, unsupported, short_circuit_ok,
  short_circuit_nil, ResponseJoin, response_join, for_command_frame, NodeResponse, answered, failed,
  collate,
}
use shotover_proxy.Valkey.Cluster.Sink.{
  Token, Response, Attempt, reached, refused, Nodes, Do, outside, short_circuit,
  send_error_response, choose_and_send,
}
use shotover_proxy.Valkey.Cluster.Sink.Build.{build_connections, hosts_of}

abbrev pub or_text : Option Bytes → Bytes → Bytes
or_text none text = text
or_text (some reason) text = reason

-- `unwrap_or_default`
abbrev pub or_empty : Option Bytes → Bytes
or_empty none = []
or_empty (some host) = host

-- The arguments of AUTH, from the last to the first.
unfoldable pub auth_token : List ValkeyFrame → Result Token
auth_token [] = err "syntax error: expected password"
auth_token (bulk_string password ∷ []) = ok (record { username = none; password = password })
auth_token (bulk_string password ∷ bulk_string username ∷ []) =
    ok (record { username = some username; password = password })
auth_token (bulk_string password ∷ bulk_string username ∷ f ∷ fs) =
    err "syntax error: too many args"
auth_token (bulk_string password ∷ _ ∷ fs) = err "syntax error: expected bulk string"
auth_token (_ ∷ fs) = err "syntax error: expected bulk string"

-- `map_err`: a lost channel gets this text.
abbrev pub or_lost : (P : Protocols) → String → Response P → Response P
or_lost P text (err e) = err text
or_lost P text response = response

module _ (P : Protocols) (nodes : Nodes P) (fresh : ℕ) (crc16 : Bytes → ℕ) where
  abbrev pub to_host : Message P → Option (ℕ × Bytes) → Do P nodes fresh (Response P)
  to_host message (some (last, host)) s =
      (choose_and_send P nodes fresh host message >>= λ response.
      done (or_lost P "no response from single channel" response))
        s
  to_host message none s =
      send_error_response P nodes fresh
        (or_text s.reason_for_no_nodes (
          codes
            "ERR Shotover ValkeySinkCluster does not know of a node containing the required slot"))
        s

  unfoldable pub send_message_to_slot : ℕ → Message P → Do P nodes fresh (Response P)
  unfolding range_first
  send_message_to_slot n message s = to_host message (range_first n s.topology.slots.masters) s

  unfoldable pub send_to_each : List Bytes → Message P → Do P nodes fresh (List (Response P))
  send_to_each [] message = done []
  send_to_each (host ∷ hosts) message = do
    response ← choose_and_send P nodes fresh host message
    responses ← send_to_each hosts message
    done (response ∷ responses)

  -- The frame of a node's response, as the fold reads it; `unwrap` and `unreachable!` panic.
  abbrev pub Arrived : Type 0
  Arrived = Option ℕ × NodeResponse

  abbrev pub valkey_answer : Result (Message P × Option (Frame P)) → Result Arrived
  valkey_answer (ok (m, some (valkey_frame f))) = ok (m.received_from_source_or_sink_at, answered f)
  valkey_answer _ = panic

  unfoldable pub node_response : Response P → Result Arrived
  unfolding frame
  node_response (ok (ok m)) = valkey_answer (frame P m)
  node_response (ok (err e)) = ok (none, failed (codes e))
  node_response (err e) = ok (none, failed (codes e))
  node_response _ = panic

  abbrev pub Joined : Type 0
  Joined = Option ℕ × Option ValkeyFrame

  -- `responses.fold(None, …)`: an error ends the reading of further responses.
  unfoldable pub fold_responses : ResponseJoin → Joined → List (Response P) → Result Joined
  unfolding node_response collate
  fold_responses j acc [] = ok acc
  fold_responses j (at, some (error e)) (r ∷ rs) = ok (at, some (error e))
  fold_responses j (at, acc) (r ∷ rs) = elim (node_response r) [
    | ok n ↦ fold_responses j (n.0, collate j acc (n.1 ∷ [])) rs
    | err e ↦ err e
    | panic ↦ panic
  ]

  -- `response.unwrap()`; awaiting the joined response gives it.
  unfoldable pub joined_response : Result Joined → Result (Response P)
  unfolding from_frame_at_instant
  joined_response (ok (at, some f)) =
      ok (ok (ok (from_frame_at_instant P fresh (valkey_frame f) at)))
  joined_response _ = panic

  unfoldable pub join_responses : ResponseJoin → List (Response P) → Do P nodes fresh (Response P)
  unfolding fold_responses joined_response
  join_responses j responses = do
    arrived ← outside P nodes fresh (λ w. nodes.arrival w responses)
    result_of (joined_response (fold_responses j (none, none) arrived))

  unfoldable pub send_message_to_channels :
      List Bytes → Message P → RoutingInfo → Do P nodes fresh (Response P)
  unfolding send_to_each join_responses response_join
  send_message_to_channels [] message info s =
      send_error_response P nodes fresh
        (or_text s.reason_for_no_nodes
          (codes "ERR Shotover ValkeySinkCluster does not know of any nodes"))
        s
  send_message_to_channels (host ∷ []) message info s =
      (choose_and_send P nodes fresh host message >>= λ response.
      done (or_lost P "no response from single channel" response))
        s
  send_message_to_channels (host ∷ h ∷ hosts) message info s =
      (send_to_each (host ∷ h ∷ hosts) message >>= join_responses (response_join info)) s

  unfoldable pub auth_answer : Attempt (Unit {0}) → Do P nodes fresh (Response P)
  auth_answer (reached u) = short_circuit P nodes fresh (simple_string (codes "OK"))
  auth_answer (refused (upstream bad_credentials)) =
      send_error_response P nodes fresh (codes "WRONGPASS invalid username-password")
  auth_answer (refused (upstream not_authorized)) =
      send_error_response P nodes fresh (codes "NOPERM upstream user lacks required permission")
  auth_answer (refused (upstream e)) = send_error_response P nodes fresh (show_error e)
  auth_answer (refused e) = result_of (err "authentication failed")

  -- `on_auth`, on the words of the command.
  unfoldable pub on_auth : List ValkeyFrame → Do P nodes fresh (Response P)
  unfolding auth_answer auth_token build_connections
  on_auth command = do
    token ← result_of (auth_token (reverse (drop 1 command)))
    attempt ← build_connections P nodes fresh (some token)
    auth_answer attempt

  unfoldable pub dispatch_message_hiding :
      RoutingInfo → List ValkeyFrame → Message P → Do P nodes fresh (Response P)
  unfolding send_message_to_slot send_message_to_channels on_auth
  dispatch_message_hiding (slot n) command message s = send_message_to_slot n message s
  dispatch_message_hiding (all_nodes j) command message s =
      send_message_to_channels s.topology.slots.nodes message (all_nodes j) s
  dispatch_message_hiding (all_masters j) command message s =
      send_message_to_channels (hosts_of s.topology.slots.masters) message (all_masters j) s
  dispatch_message_hiding random command message s =
      (outside P nodes fresh (λ w. nodes.choose w (hosts_of s.topology.slots.masters)) >>= λ host.
      choose_and_send P nodes fresh (or_empty host) message)
        s
  dispatch_message_hiding auth command message s = on_auth command s
  dispatch_message_hiding unsupported command message s =
      short_circuit P nodes fresh
        (error (
          codes
            "ERR unknown command - Shotover ValkeySinkCluster does not not support this command"))
        s
  dispatch_message_hiding short_circuit_nil command message s = short_circuit P nodes fresh null s
  dispatch_message_hiding short_circuit_ok command message s =
      short_circuit P nodes fresh (simple_string (codes "OK")) s

  -- `.await?.remove(0)`
  abbrev pub direct_of : Attempt (List nodes.Connection) → Do P nodes fresh nodes.Connection
  direct_of (reached []) s = (s, panic)
  direct_of (reached (c ∷ cs)) s = (record s { direct_connection = some c }, ok c)
  direct_of (refused e) s = (s, err "failed to connect")

  abbrev pub connect_direct :
      Option nodes.Connection → Option Bytes → Do P nodes fresh nodes.Connection
  connect_direct (some c) destination s = (s, ok c)
  connect_direct none none s =
      (s, err "Cannot call direct_connection when direct_destination is configured as None")
  connect_direct none (some address) s =
      (outside P nodes fresh (λ w. nodes.get_connections w address s.token 1) >>= direct_of) s

  unfoldable pub direct_connection : Do P nodes fresh nodes.Connection
  direct_connection s = connect_direct s.direct_connection s.direct_destination s

  abbrev pub sent_directly : Option (Response P) → Do P nodes fresh (Response P)
  sent_directly none s = (s, err "channel closed")
  sent_directly (some response) s =
      (s, ok (or_lost P "no response from direct connection" response))

  unfoldable pub send_direct : Message P → Do P nodes fresh (Response P)
  unfolding direct_connection
  send_direct message = do
    connection ← direct_connection
    response ← outside P nodes fresh (λ w. nodes.send w connection message)
    sent_directly response

  unfoldable pub dispatch_message_handling :
      RoutingInfo → List ValkeyFrame → Message P → Do P nodes fresh (Response P)
  unfolding send_message_to_slot on_auth send_direct
  dispatch_message_handling (slot n) command message = send_message_to_slot n message
  dispatch_message_handling auth command message = on_auth command
  dispatch_message_handling _ command message = send_direct message

  -- `match self.direct_destination`
  abbrev pub dispatch_on :
      Option Bytes → RoutingInfo → List ValkeyFrame → Message P → Do P nodes fresh (Response P)
  dispatch_on (some address) info command message = dispatch_message_handling info command message
  dispatch_on none info command message = dispatch_message_hiding info command message

  unfoldable pub command_of : Option (Frame P) → Result (List ValkeyFrame)
  unfolding to_list
  command_of (some (valkey_frame (array fs))) = ok (to_list fs)
  command_of none = err "Failed to parse valkey frame"
  command_of _ = err "Invalid redis command, must be an array but was not"

  unfoldable pub dispatch_message : Message P → Do P nodes fresh (Response P)
  unfolding frame command_of for_command_frame
  dispatch_message message = do
    (parsed, f) ← result_of (frame P message)
    command ← result_of (command_of f)
    info ← result_of (for_command_frame crc16 command)
    (λ s. dispatch_on s.direct_destination info command parsed s)

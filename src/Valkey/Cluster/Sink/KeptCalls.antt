-- ===== src/Valkey/Cluster/Sink/KeptCalls.antt =====
-- What a call of the sink does to the topology that connections share.
use mathlib.Core.List.{reverse}
use shotover_proxy.Prelude.{ℕ, refl, List, [], ◌∷◌, Bytes, Option, none, some, drop}
use shotover_proxy.Prelude.Stateful.{◌>>=◌, done, result_of}
use shotover_proxy.Message.Frame.{Protocols}
use shotover_proxy.Message.State.{Message, frame}
use shotover_proxy.Valkey.Frame.{ValkeyFrame}
use shotover_proxy.Valkey.Errors.{
  upstream, protocol, other, not_authenticated, not_authorized, bad_credentials, other_error,
}
use shotover_proxy.Valkey.Cluster.Slots.{range_first}
use shotover_proxy.Valkey.Cluster.Routing.{
  RoutingInfo, slot, auth, all_nodes, all_masters, random, unsupported, short_circuit_ok,
  short_circuit_nil, ResponseJoin, response_join, for_command_frame,
}
use shotover_proxy.Valkey.Cluster.Sink.{
  Response, Attempt, reached, refused, Nodes, ValkeySinkCluster, Do, outside, choose_and_send,
  short_circuit,
}
use shotover_proxy.Valkey.Cluster.Sink.Build.{hosts_of}
use shotover_proxy.Valkey.Cluster.Sink.Dispatch.{
  to_host, send_message_to_slot, send_to_each, join_responses, send_message_to_channels,
  auth_answer, on_auth, dispatch_message_hiding, direct_of, connect_direct, direct_connection,
  sent_directly, send_direct, dispatch_message_handling, dispatch_on, dispatch_message, or_empty,
  auth_token, command_of,
}
use shotover_proxy.Valkey.Cluster.Sink.Topologies.{
  Keeps, each, bind-Keeps, same-Keeps, outside-Keeps, reads-Keeps, choose_and_send-Keeps,
  send_error_response-Keeps,
}
use shotover_proxy.Valkey.Cluster.Sink.KeptBuilding.{build_connections-Keeps}

module _ (P : Protocols) (nodes : Nodes P) (fresh : ℕ) (crc16 : Bytes → ℕ) where
  abbrev Sink : Type 0
  Sink = ValkeySinkCluster P nodes fresh

  abbrev Kept : {A : Type 0} → Do P nodes fresh A → Type 0
  Kept = Keeps P nodes fresh

  to_host-Keeps :
      (message : Message P) (o : Option (ℕ × Bytes)) → Kept (to_host P nodes fresh crc16 message o)
  to_host-Keeps message (some (last, host)) =
      bind-Keeps P nodes fresh _ _ (choose_and_send-Keeps P nodes fresh host message)
        (λ r. same-Keeps P nodes fresh _)
  to_host-Keeps message none =
      reads-Keeps P nodes fresh _ (λ s. send_error_response-Keeps P nodes fresh _)

  send_message_to_slot-Keeps :
      (n : ℕ) (message : Message P) → Kept (send_message_to_slot P nodes fresh crc16 n message)
  unfolding send_message_to_slot
  send_message_to_slot-Keeps n message =
      reads-Keeps P nodes fresh
        (λ s. to_host P nodes fresh crc16 message (range_first n s.topology.slots.masters))
        (λ s. to_host-Keeps message _)

  send_to_each-Keeps :
      (hosts : List Bytes) (message : Message P)
      → Kept (send_to_each P nodes fresh crc16 hosts message)
  unfolding send_to_each
  send_to_each-Keeps [] message = same-Keeps P nodes fresh _
  send_to_each-Keeps (host ∷ hosts) message =
      bind-Keeps P nodes fresh _ _ (choose_and_send-Keeps P nodes fresh host message) (λ r.
        bind-Keeps P nodes fresh _ (λ rs. done (r ∷ rs)) (send_to_each-Keeps hosts message)
          (λ rs. same-Keeps P nodes fresh _))

  join_responses-Keeps :
      (j : ResponseJoin) (responses : List (Response P))
      → Kept (join_responses P nodes fresh crc16 j responses)
  unfolding join_responses
  join_responses-Keeps j responses = each P nodes fresh _ (λ s. (refl, λ h. h))

  send_message_to_channels-Keeps :
      (hosts : List Bytes) (message : Message P) (info : RoutingInfo)
      → Kept (send_message_to_channels P nodes fresh crc16 hosts message info)
  unfolding send_message_to_channels
  send_message_to_channels-Keeps [] message info =
      reads-Keeps P nodes fresh _ (λ s. send_error_response-Keeps P nodes fresh _)
  send_message_to_channels-Keeps (host ∷ []) message info =
      bind-Keeps P nodes fresh _ _ (choose_and_send-Keeps P nodes fresh host message)
        (λ r. same-Keeps P nodes fresh _)
  send_message_to_channels-Keeps (host ∷ h ∷ hosts) message info =
      bind-Keeps P nodes fresh (send_to_each P nodes fresh crc16 (host ∷ h ∷ hosts) message)
        (join_responses P nodes fresh crc16 (response_join info))
        (send_to_each-Keeps (host ∷ h ∷ hosts) message) (join_responses-Keeps (response_join info))

  auth_answer-Keeps : (a : Attempt (Unit {0})) → Kept (auth_answer P nodes fresh crc16 a)
  unfolding auth_answer short_circuit
  auth_answer-Keeps (reached u) = same-Keeps P nodes fresh _
  auth_answer-Keeps (refused (upstream bad_credentials)) = send_error_response-Keeps P nodes fresh _
  auth_answer-Keeps (refused (upstream not_authorized)) = send_error_response-Keeps P nodes fresh _
  auth_answer-Keeps (refused (upstream not_authenticated)) =
      send_error_response-Keeps P nodes fresh _
  auth_answer-Keeps (refused (upstream (other_error e))) = send_error_response-Keeps P nodes fresh _
  auth_answer-Keeps (refused (protocol e)) = same-Keeps P nodes fresh _
  auth_answer-Keeps (refused (other e)) = same-Keeps P nodes fresh _

  on_auth-Keeps : (command : List ValkeyFrame) → Kept (on_auth P nodes fresh crc16 command)
  unfolding on_auth
  on_auth-Keeps command =
      bind-Keeps P nodes fresh (result_of (auth_token (reverse (drop 1 command)))) _
        (same-Keeps P nodes fresh _)
        (λ t.
          bind-Keeps P nodes fresh _ _ (build_connections-Keeps P nodes fresh t) auth_answer-Keeps)

  dispatch_message_hiding-Keeps :
      (info : RoutingInfo) (command : List ValkeyFrame) (message : Message P)
      → Kept (dispatch_message_hiding P nodes fresh crc16 info command message)
  unfolding dispatch_message_hiding short_circuit
  dispatch_message_hiding-Keeps (slot n) command message = send_message_to_slot-Keeps n message
  dispatch_message_hiding-Keeps (all_nodes j) command message =
      reads-Keeps P nodes fresh
        (λ s.
          send_message_to_channels P nodes fresh crc16 s.topology.slots.nodes message (all_nodes j))
        (λ s. send_message_to_channels-Keeps s.topology.slots.nodes message (all_nodes j))
  dispatch_message_hiding-Keeps (all_masters j) command message =
      reads-Keeps P nodes fresh
        (λ s.
          send_message_to_channels P nodes fresh crc16 (hosts_of s.topology.slots.masters) message
            (all_masters j))
        (λ s.
          send_message_to_channels-Keeps (hosts_of s.topology.slots.masters) message
            (all_masters j))
  dispatch_message_hiding-Keeps random command message =
      reads-Keeps P nodes fresh
        (λ s.
          outside P nodes fresh (λ w. nodes.choose w (hosts_of s.topology.slots.masters))
          >>= λ host. choose_and_send P nodes fresh (or_empty host) message)
        (λ s.
          bind-Keeps P nodes fresh _ _
            (outside-Keeps P nodes fresh (λ w. nodes.choose w (hosts_of s.topology.slots.masters)))
            (λ host. choose_and_send-Keeps P nodes fresh (or_empty host) message))
  dispatch_message_hiding-Keeps auth command message = on_auth-Keeps command
  dispatch_message_hiding-Keeps unsupported command message = same-Keeps P nodes fresh _
  dispatch_message_hiding-Keeps short_circuit_nil command message = same-Keeps P nodes fresh _
  dispatch_message_hiding-Keeps short_circuit_ok command message = same-Keeps P nodes fresh _

  direct_of-Keeps : (a : Attempt (List nodes.Connection)) → Kept (direct_of P nodes fresh crc16 a)
  direct_of-Keeps (reached []) = same-Keeps P nodes fresh _
  direct_of-Keeps (reached (c ∷ cs)) = each P nodes fresh _ (λ s. (refl, λ h. h))
  direct_of-Keeps (refused e) = same-Keeps P nodes fresh _

  connect_direct-Keeps :
      (c : Option nodes.Connection) (destination : Option Bytes)
      → Kept (connect_direct P nodes fresh crc16 c destination)
  connect_direct-Keeps (some c) destination = same-Keeps P nodes fresh _
  connect_direct-Keeps none none = same-Keeps P nodes fresh _
  connect_direct-Keeps none (some address) =
      reads-Keeps P nodes fresh
        (λ s.
          outside P nodes fresh (λ w. nodes.get_connections w address s.token 1)
          >>= direct_of P nodes fresh crc16)
        (λ s. bind-Keeps P nodes fresh _ _ (outside-Keeps P nodes fresh _) direct_of-Keeps)

  sent_directly-Keeps : (o : Option (Response P)) → Kept (sent_directly P nodes fresh crc16 o)
  sent_directly-Keeps none = same-Keeps P nodes fresh _
  sent_directly-Keeps (some r) = same-Keeps P nodes fresh _

  send_direct-Keeps : (message : Message P) → Kept (send_direct P nodes fresh crc16 message)
  unfolding send_direct direct_connection
  send_direct-Keeps message =
      bind-Keeps P nodes fresh _ _
        (reads-Keeps P nodes fresh
          (λ s. connect_direct P nodes fresh crc16 s.direct_connection s.direct_destination)
          (λ s. connect_direct-Keeps s.direct_connection s.direct_destination))
        (λ c.
          bind-Keeps P nodes fresh _ _ (outside-Keeps P nodes fresh (λ w. nodes.send w c message))
            sent_directly-Keeps)

  dispatch_message_handling-Keeps :
      (info : RoutingInfo) (command : List ValkeyFrame) (message : Message P)
      → Kept (dispatch_message_handling P nodes fresh crc16 info command message)
  unfolding dispatch_message_handling
  dispatch_message_handling-Keeps (slot n) command message = send_message_to_slot-Keeps n message
  dispatch_message_handling-Keeps auth command message = on_auth-Keeps command
  dispatch_message_handling-Keeps (all_nodes j) command message = send_direct-Keeps message
  dispatch_message_handling-Keeps (all_masters j) command message = send_direct-Keeps message
  dispatch_message_handling-Keeps random command message = send_direct-Keeps message
  dispatch_message_handling-Keeps unsupported command message = send_direct-Keeps message
  dispatch_message_handling-Keeps short_circuit_nil command message = send_direct-Keeps message
  dispatch_message_handling-Keeps short_circuit_ok command message = send_direct-Keeps message

  dispatch_on-Keeps :
      (o : Option Bytes) (info : RoutingInfo) (command : List ValkeyFrame) (message : Message P)
      → Kept (dispatch_on P nodes fresh crc16 o info command message)
  dispatch_on-Keeps (some address) info command message =
      dispatch_message_handling-Keeps info command message
  dispatch_on-Keeps none info command message = dispatch_message_hiding-Keeps info command message

  pub dispatch_message-Keeps :
      (message : Message P) → Kept (dispatch_message P nodes fresh crc16 message)
  unfolding dispatch_message
  dispatch_message-Keeps message =
      bind-Keeps P nodes fresh (result_of (frame P message)) _ (same-Keeps P nodes fresh _)
        (λ (parsed, f).
          bind-Keeps P nodes fresh (result_of (command_of P nodes fresh crc16 f)) _
            (same-Keeps P nodes fresh _)
            (λ command.
              bind-Keeps P nodes fresh (result_of (for_command_frame crc16 command)) _
                (same-Keeps P nodes fresh _)
                (λ info.
                  reads-Keeps P nodes fresh
                    (λ s. dispatch_on P nodes fresh crc16 s.direct_destination info command parsed)
                    (λ s. dispatch_on-Keeps s.direct_destination info command parsed))))

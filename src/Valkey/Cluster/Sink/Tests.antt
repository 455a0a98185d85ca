-- ===== src/Valkey/Cluster/Sink/Tests.antt =====
-- A sink before nodes that answer OK.
use shotover_proxy.Prelude.{
  ℕ, suc, ◌≡◌, ◌≢◌, ◌↔◌, refl, true, false, List, [], ◌∷◌, Bytes, codes, Option, none, some, ok,
  length, All,
}
use shotover_proxy.Message.Frame.{valkey_frame}
use shotover_proxy.Message.State.{
  Message, from_frame_at_instant, frame, ensure_parsed, parsed_frame,
}
use shotover_proxy.Message.Samples.{only_valkey}
use shotover_proxy.Valkey.Frame.{ValkeyFrame, simple_string, bulk_string, array, cons, nil, to_list}
use shotover_proxy.Valkey.Cluster.Slots.{range_first}
use shotover_proxy.Valkey.Cluster.Routing.{for_command_frame, for_command, for_key}
use shotover_proxy.Valkey.Cluster.Redirection.{parse}
use shotover_proxy.Valkey.Cluster.Sink.{
  Token, Response, reached, Nodes, Topology, ValkeySinkCluster, choose_and_send, pick, pick_of,
  channels_of, or_connect, deliver, sent_to,
}
use shotover_proxy.Valkey.Cluster.Sink.Dispatch.{
  dispatch_message, command_of, dispatch_message_hiding, send_message_to_slot,
}
use shotover_proxy.Valkey.Cluster.Sink.Responses.{
  transform, dispatch_all, await_responses, initialise, settle, redirection_of, follow,
}
use shotover_proxy.Valkey.Cluster.Sink.Redirects.{Plain, await-exactly_Plain, transform-answers}
use shotover_proxy.Valkey.Cluster.Sink.Sharing.{dispatch_all-shared, transform-private}

abbrev msg : ValkeyFrame → Message only_valkey
msg f = from_frame_at_instant only_valkey 3 (valkey_frame f) none

abbrev said_ok : Response only_valkey
said_ok = ok (ok (msg (simple_string (codes "OK"))))

-- The world counts the requests that nodes have taken.
abbrev first_of : List Bytes → Option Bytes
first_of [] = none
first_of (b ∷ bs) = some b

abbrev node : Nodes only_valkey
node = record {
  World = ℕ;
  Connection = ℕ;
  is_closed = λ w c. false;
  send = λ w c m. (suc w, some said_ok);
  get_connections = λ w host token n. (w, reached (7 ∷ []));
  new_unpooled_connection = λ w host token. (w, reached 7);
  answering = λ w hosts. hosts;
  in_time = λ w host. true;
  sample = λ w n. (w, (0, 1));
  choose = λ w hosts. (w, first_of hosts);
  arrival = λ w rs. (w, rs);
}

abbrev no_topology : Topology only_valkey node 3
no_topology = record { slots = record { masters = []; replicas = []; nodes = [] }; channels = [] }

abbrev one_node : Topology only_valkey node 3
one_node = record {
  slots = record { masters = (16383, codes "a") ∷ []; replicas = []; nodes = codes "a" ∷ [] };
  channels = (codes "a", 7 ∷ []) ∷ [];
}

abbrev with_password : Token
with_password = record { username = none; password = codes "pw" }

abbrev ready : ℕ → ValkeySinkCluster only_valkey node 3
ready sent = record {
  has_run_init = true;
  topology = one_node;
  shared_topology = no_topology;
  direct_connection = none;
  load_scores = [];
  connection_count = 1;
  reason_for_no_nodes = none;
  rebuild_connections = false;
  first_contact_points = codes "a" ∷ [];
  direct_destination = none;
  token = some with_password;
  failed_requests = 0;
  world = sent;
}

abbrev slot_five : Bytes → ℕ
slot_five b = 5

abbrev get_k : Message only_valkey
get_k = msg (array (cons (bulk_string (codes "GET")) (cons (bulk_string (codes "k")) nil)))

abbrev auth_pw : Message only_valkey
auth_pw = msg (array (cons (bulk_string (codes "AUTH")) (cons (bulk_string (codes "pw")) nil)))

transform_run :
    transform only_valkey node 3 slot_five (get_k ∷ []) (ready 0)
    ≡ (ready 1, ok (msg (simple_string (codes "OK")) ∷ []))
unfolding transform initialise dispatch_all dispatch_message command_of dispatch_message_hiding
    send_message_to_slot range_first choose_and_send pick pick_of channels_of or_connect deliver
    sent_to await_responses settle redirection_of follow for_command_frame for_command for_key frame
    from_frame_at_instant ensure_parsed parsed_frame parse to_list
transform_run = refl

transform-answers_example : length (msg (simple_string (codes "OK")) ∷ []) ≡ length (get_k ∷ [])
transform-answers_example =
    transform-answers only_valkey node 3 slot_five (get_k ∷ []) (ready 0) (ready 1)
      (msg (simple_string (codes "OK")) ∷ []) transform_run

await-exactly_Plain_example :
    ((s' : ValkeySinkCluster only_valkey node 3) × (out : List (Message only_valkey))
      × (await_responses only_valkey node 3 slot_five (get_k ∷ []) (said_ok ∷ []) (ready 0)
          ≡ (s', ok out)))
    ↔ All (Plain only_valkey node 3 slot_five) (said_ok ∷ [])
await-exactly_Plain_example =
    await-exactly_Plain only_valkey node 3 slot_five (get_k ∷ []) (said_ok ∷ []) (ready 0) refl

dispatch_all-shared_example :
    (dispatch_all only_valkey node 3 slot_five (auth_pw ∷ []) (ready 0)).0.shared_topology
    ≡ no_topology
dispatch_all-shared_example =
    dispatch_all-shared only_valkey node 3 slot_five (auth_pw ∷ []) (ready 0)

transform-private_example :
    ((transform only_valkey node 3 slot_five (get_k ∷ []) (ready 0)).0.shared_topology
      ≡ no_topology)
    × ((transform only_valkey node 3 slot_five (get_k ∷ []) (ready 0)).0.token ≢ none)
transform-private_example =
    transform-private only_valkey node 3 slot_five (get_k ∷ []) (ready 0)
      (λ (h : some with_password ≡ none). cc)

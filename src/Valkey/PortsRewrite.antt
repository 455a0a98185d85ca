-- ===== src/Valkey/PortsRewrite.antt =====
-- shotover/src/transforms/valkey/cluster_ports_rewrite.rs: `ValkeyClusterPortsRewrite`.
pub mod Ports
mod Tests
use mathlib.Core.Option
use shotover_proxy.Prelude.{
  ℕ, ◌+◌, Bool, true, false, ◌&&◌, ◌||◌, List, [], ◌∷◌, ◌++◌, Bytes, bytes_eq, codes, Option, none,
  some, String, Result, ok, err, panic, ◌>>=◌, IdMap, map_get, map_remove, map_insert, map_results,
  if◌then◌else◌, ◌==◌, digits,
}
use shotover_proxy.Valkey.Frame.{
  ValkeyFrame, array, bulk_string, integer, to_list, of_list, to_ascii_uppercase,
}
use shotover_proxy.Message.Frame.{Protocols, Frame, valkey_frame}
use shotover_proxy.Message.State.{Message, frame, edit, invalidate_cache}

pub data RequestType : Type 0 where
  cluster_slot cluster_nodes : RequestType

-- `eq_ignore_ascii_case` with a word in capital letters.
abbrev pub says : Bytes → Bytes → Bool
says word b = bytes_eq (to_ascii_uppercase b) word

abbrev pub slots_words : List ValkeyFrame → Bool
slots_words (bulk_string one ∷ bulk_string two ∷ _) =
    says (codes "CLUSTER") one && says (codes "SLOTS") two
slots_words _ = false

abbrev pub nodes_words : List ValkeyFrame → Bool
nodes_words (bulk_string one ∷ bulk_string two ∷ _) =
    says (codes "CLUSTER") one && (says (codes "NODES") two || says (codes "REPLICAS") two)
nodes_words _ = false

-- `[ValkeyFrame::BulkString(_ip), ValkeyFrame::Integer(port), ..]`; a `u16` is its own `i64`.
abbrev pub target_words : ℕ → List ValkeyFrame → Result ValkeyFrame
target_words new_port (bulk_string ip ∷ integer port ∷ rest) =
    ok (array (of_list (bulk_string ip ∷ integer new_port ∷ rest)))
target_words new_port _ =
    err "expected slot to start with bulkstring followed by integer, but was something else"

unfoldable pub rewrite_target : ℕ → ValkeyFrame → Result ValkeyFrame
unfolding to_list of_list
rewrite_target new_port (array target) = target_words new_port (to_list target)
rewrite_target new_port _ = err "non array value in slot map"

-- The items of a slot: the first two are its ends.
unfoldable pub rewrite_items : ℕ → List ValkeyFrame → Result (List ValkeyFrame)
unfolding map_results rewrite_target
rewrite_items new_port (start ∷ stop ∷ targets) = do
  rewritten ← map_results (rewrite_target new_port) targets
  ok (start ∷ stop ∷ rewritten)
rewrite_items new_port items = ok items

unfoldable pub rewrite_slot : ℕ → ValkeyFrame → Result ValkeyFrame
unfolding rewrite_items to_list of_list
rewrite_slot new_port (array slot) = do
  items ← rewrite_items new_port (to_list slot)
  ok (array (of_list items))
rewrite_slot new_port elem = ok elem

-- `ip.split([':', '@'])`
abbrev pub add_front : ℕ → List Bytes → List Bytes
add_front x [] = (x ∷ []) ∷ []
add_front x (t ∷ ts) = (x ∷ t) ∷ ts

unfoldable pub split_address : Bytes → List Bytes
split_address [] = [] ∷ []
split_address (x ∷ xs) =
    let rest = split_address xs in
    if (x == b':') || (x == b'@') then [] ∷ rest else add_front x rest

abbrev pub joined_address : ℕ → List Bytes → Result Bytes
joined_address new_port (host ∷ port ∷ cport ∷ _) =
    ok (host ++ (b':' ∷ (digits 5 new_port ++ (b'@' ∷ cport))))
joined_address new_port _ = err "IP address not in valid format"

unfoldable pub rewrite_address : ℕ → Bytes → Result Bytes
unfolding split_address digits
rewrite_address new_port ip = joined_address new_port (split_address ip)

-- The id, the address and the rest of a record.
unfoldable pub rewrite_record : ℕ → List Bytes → Result (List Bytes)
unfolding rewrite_address
rewrite_record new_port [] = err "CLUSTER NODES response missing id field"
rewrite_record new_port (id ∷ []) = err "CLUSTER NODES response missing address field"
rewrite_record new_port (id ∷ ip ∷ rest) = do
  new_ip ← rewrite_address new_port ip
  ok (id ∷ new_ip ∷ rest)

unfoldable pub rewrite_records : ℕ → List (Result (List Bytes)) → Result (List (List Bytes))
unfolding rewrite_record
rewrite_records new_port [] = ok []
rewrite_records new_port (result ∷ results) = do
  record_ ← result
  rewritten ← rewrite_record new_port record_
  rest ← rewrite_records new_port results
  ok (rewritten ∷ rest)

-- `records` and `written` are the reader and the writer of the csv crate.
module _ (P : Protocols) (records : Bytes → List (Result (List Bytes)))
    (written : List (List Bytes) → Bytes) where
  unfoldable pub is_cluster_slots : Frame P → Bool
  unfolding bytes_eq to_ascii_uppercase to_list
  is_cluster_slots (valkey_frame (array fs)) = slots_words (to_list fs)
  is_cluster_slots _ = false

  unfoldable pub is_cluster_nodes : Frame P → Bool
  unfolding bytes_eq to_ascii_uppercase to_list
  is_cluster_nodes (valkey_frame (array fs)) = nodes_words (to_list fs)
  is_cluster_nodes _ = false

  unfoldable pub rewrite_port_slot : ℕ → Frame P → Result (Frame P)
  unfolding map_results rewrite_slot to_list of_list
  rewrite_port_slot new_port (valkey_frame (array slots)) = do
    rewritten ← map_results (rewrite_slot new_port) (to_list slots)
    ok (valkey_frame (array (of_list rewritten)))
  rewrite_port_slot new_port f = ok f

  unfoldable pub rewrite_buffer : ℕ → Bytes → Result Bytes
  unfolding rewrite_records
  rewrite_buffer new_port buf = do
    rewritten ← rewrite_records new_port (records buf)
    ok (written rewritten)

  -- The first bulk string of the items of an array is its buffer.
  unfoldable pub rewrite_first : ℕ → List ValkeyFrame → Result (List ValkeyFrame)
  unfolding rewrite_buffer
  rewrite_first new_port [] = ok []
  rewrite_first new_port (bulk_string buf ∷ items) = do
    rewritten ← rewrite_buffer new_port buf
    ok (bulk_string rewritten ∷ items)
  rewrite_first new_port (item ∷ items) = do rest ← rewrite_first new_port items; ok (item ∷ rest)

  unfoldable pub rewrite_port_node : ℕ → Frame P → Result (Frame P)
  unfolding rewrite_buffer rewrite_first to_list of_list
  rewrite_port_node new_port (valkey_frame (bulk_string buf)) = do
    rewritten ← rewrite_buffer new_port buf
    ok (valkey_frame (bulk_string rewritten))
  rewrite_port_node new_port (valkey_frame (array items)) = do
    rewritten ← rewrite_first new_port (to_list items)
    ok (valkey_frame (array (of_list rewritten)))
  rewrite_port_node new_port f = ok f

  pub record PortsRewrite : Type 0 where
    pub new_port : ℕ
    pub request_type : IdMap RequestType

  -- What is remembered of a request: both tests are made, one behind the other.
  unfoldable pub remember : ℕ → Option (Frame P) → IdMap RequestType → IdMap RequestType
  unfolding is_cluster_slots is_cluster_nodes map_insert
  remember id none types = types
  remember id (some f) types =
      let slots = if is_cluster_slots f then map_insert id cluster_slot types else types in
      if is_cluster_nodes f then map_insert id cluster_nodes slots else slots

  unfoldable pub note_requests :
      List (Message P) → IdMap RequestType → Result (List (Message P) × IdMap RequestType)
  unfolding frame remember
  note_requests [] types = ok ([], types)
  note_requests (m ∷ ms) types = do
    (m', f) ← frame P m
    (rest, types') ← note_requests ms (remember m.id f types)
    ok (m' ∷ rest, types')

  abbrev pub context : String → Result (Frame P) → Result (Frame P)
  context text (ok f) = ok f
  context text (err e) = err text
  context text panic = panic

  abbrev pub rewritten_by : RequestType → ℕ → Frame P → Result (Frame P)
  rewritten_by cluster_slot new_port f =
      context "failed to rewrite CLUSTER SLOTS port" (rewrite_port_slot new_port f)
  rewritten_by cluster_nodes new_port f =
      context "failed to rewrite CLUSTER NODES port" (rewrite_port_node new_port f)

  abbrev pub rewrite_frame : RequestType → ℕ → Message P × Option (Frame P) → Result (Message P)
  rewrite_frame ty new_port (m, none) = ok m
  rewrite_frame ty new_port (m, some f) = do
    f' ← rewritten_by ty new_port f
    ok (invalidate_cache P (edit P f' m))

  abbrev pub rewrite_as : Option RequestType → ℕ → Message P → Result (Message P)
  rewrite_as none new_port m = ok m
  rewrite_as (some ty) new_port m = do r ← frame P m; rewrite_frame ty new_port r

  abbrev pub type_of : Option ℕ → IdMap RequestType → Option RequestType
  type_of none types = none
  type_of (some id) types = map_get id types

  abbrev pub forget : Option ℕ → IdMap RequestType → IdMap RequestType
  forget none types = types
  forget (some id) types = map_remove id types

  unfoldable pub rewrite_responses :
      ℕ → List (Message P) → IdMap RequestType → Result (List (Message P) × IdMap RequestType)
  unfolding map_get map_remove frame invalidate_cache rewrite_port_slot rewrite_port_node
  rewrite_responses new_port [] types = ok ([], types)
  rewrite_responses new_port (m ∷ ms) types = do
    m' ← rewrite_as (type_of m.request_id types) new_port m
    (rest, types') ← rewrite_responses new_port ms (forget m.request_id types)
    ok (m' ∷ rest, types')

  -- `next` is `call_next_transform` on the state of the transforms behind this one.
  unfoldable pub transform :
      {W : Type 0}
      → (W → List (Message P) → Result (W × List (Message P)))
      → PortsRewrite
      → W
      → List (Message P)
      → Result (PortsRewrite × W × List (Message P))
  unfolding note_requests rewrite_responses
  transform next s w requests = do
    (sent, types) ← note_requests requests s.request_type
    (w', responses) ← next w sent
    (rewritten, types') ← rewrite_responses s.new_port responses types
    ok (record s { request_type = types' }, w', rewritten)

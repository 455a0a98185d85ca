-- ===== src/Valkey/PortsRewrite/Tests.antt =====
-- CLUSTER SLOTS behind a chain that answers one range.
use shotover_proxy.Prelude.{
  ℕ, ◌≡◌, refl, true, false, List, [], ◌∷◌, Bytes, bytes_eq, codes, map, none, some, Result, ok,
  arith, is_utf8, digits,
}
use shotover_proxy.Valkey.Frame.{
  ValkeyFrame, array, bulk_string, cons, nil, to_list, of_list, to_ascii_uppercase,
}
use shotover_proxy.Message.Frame.{Frame, valkey_frame}
use shotover_proxy.Message.State.{
  Message, from_frame_at_instant, frame, ensure_parsed, parsed_frame, edit, invalidate_cache,
}
use shotover_proxy.Message.Samples.{only_valkey}
use shotover_proxy.Valkey.Cluster.Slots.{from_entries}
use shotover_proxy.Valkey.Cluster.Slots.Parse.{
  Range, IsRange, parse_slots, master_entries, replica_entries,
}
use shotover_proxy.Valkey.PortsRewrite.{
  transform, is_cluster_slots, is_cluster_nodes, rewrite_address,
}
use shotover_proxy.Valkey.PortsRewrite.Ports.{range_at, table, fresh, transform-slots}

-- An IPv6 address is cut at its first colon.
ipv6_address : rewrite_address 2004 (codes "fe80::1:6379@16379") ≡ ok (codes "fe80:2004@1")
unfolding rewrite_address digits
ipv6_address = refl

abbrev no_records : Bytes → List (Result (List Bytes))
no_records buf = []

abbrev all_written : List (List Bytes) → Bytes
all_written rs = []

abbrev slots_command : Frame only_valkey
slots_command =
    valkey_frame
      (array (cons (bulk_string (codes "cluster")) (cons (bulk_string (codes "SLOTS")) nil)))

abbrev request : Message only_valkey
request = from_frame_at_instant only_valkey 1 slots_command none

abbrev range : Range
range = record { start = 0; stop = 16383; master = (codes "10.0.0.1", 6379); replicas = [] }

abbrev response : Message only_valkey
response =
    record (from_frame_at_instant only_valkey 9
      (table only_valkey no_records all_written (range ∷ [])) none) { request_id = some 1 }

abbrev next : ℕ → List (Message only_valkey) → Result (ℕ × List (Message only_valkey))
next w sent = ok (w, response ∷ [])

request_frame : frame only_valkey request ≡ ok (request, some slots_command)
unfolding frame ensure_parsed parsed_frame from_frame_at_instant
request_frame = refl

response_frame :
    frame only_valkey response
    ≡ ok (response, some (table only_valkey no_records all_written (range ∷ [])))
unfolding frame ensure_parsed parsed_frame from_frame_at_instant
response_frame = refl

is_slots : is_cluster_slots only_valkey no_records all_written slots_command ≡ true
unfolding is_cluster_slots bytes_eq to_ascii_uppercase to_list
is_slots = refl

is_no_nodes : is_cluster_nodes only_valkey no_records all_written slots_command ≡ false
unfolding is_cluster_nodes bytes_eq to_ascii_uppercase to_list
is_no_nodes = refl

range-IsRange : IsRange range
unfolding is_utf8
range-IsRange = (omega arith, omega arith, (refl, refl), tt)

transform-slots_example :
    (slots : List ValkeyFrame) × (transform only_valkey no_records all_written next
        (fresh only_valkey no_records all_written 2004)
        0
        (request ∷ [])
      ≡ ok (
        fresh only_valkey no_records all_written 2004,
        0,
        invalidate_cache only_valkey
              (edit only_valkey (valkey_frame (array (of_list slots))) response)
            ∷ [],
      ))
    × (parse_slots slots
        ≡ ok (
            from_entries
              (master_entries (map (range_at 2004) (range ∷ [])))
              (replica_entries (map (range_at 2004) (range ∷ [])))))
unfolding from_frame_at_instant
transform-slots_example =
    transform-slots only_valkey no_records all_written next 2004 0 0 request request response
      response slots_command range [] request_frame is_slots is_no_nodes refl refl response_frame
      (range-IsRange, tt)

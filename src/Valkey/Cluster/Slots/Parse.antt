-- ===== src/Valkey/Cluster/Slots/Parse.antt =====
-- `parse_slots` and `build_slot_to_server`: the answer of `CLUSTER SLOTS`.
use shotover_proxy.Prelude.{
  ℕ, zero, suc, ◌%◌, ◌^◌, ◌≤◌, ◌<◌, ◌≡◌, refl, sym, ap, ◌∙◌, true, false, List, [], ◌∷◌, ◌++◌,
  Bytes, map, Result, ok, err, ◌>>=◌, leb, arith, if◌then◌else◌, is_empty, is_utf8, show_i64,
  append_assoc, append-nil, All,
}
use shotover_proxy.Valkey.Frame.{
  ValkeyFrame, bulk_string, integer, array, to_list, of_list, to_list-of_list,
}
use shotover_proxy.Valkey.Cluster.Slots.{Entry, SlotMap, from_entries}

-- `format!("{ip}:{port}")`
abbrev pub address : Bytes → ℕ → Bytes
address ip port = ip ++ (b':' ∷ show_i64 port)

-- The frames `[ip, port, ..]` of a node.
abbrev pub node_entry : List Entry → ℕ → ℕ → List ValkeyFrame → Result (List Entry)
node_entry entries start stop (bulk_string ip ∷ port ∷ rest) =
    if is_utf8 ip
    then (if is_empty ip then ok entries else elim port [
      | integer p ↦ ok (entries ++ record { host = address ip p; start = start; stop = stop } ∷ [])
      | _ ↦ err "unexpected type for port"
    ])
    else err "Failed to parse IP address as utf8"
node_entry entries start stop (_ ∷ port ∷ rest) = err "unexpected type for ip"
node_entry entries start stop _ = err "expected at least two fields"

pub build_slot_to_server : List ValkeyFrame → List Entry → ℕ → ℕ → Result (List Entry)
build_slot_to_server frames slot_entries start stop =
    if leb start stop then node_entry slot_entries start stop frames else err "invalid slot range"

-- The variables of the loop over the parts of a range.
pub record Scan : Type 0 where
  pub start : ℕ
  pub stop : ℕ
  pub masters : List Entry
  pub replicas : List Entry

abbrev as_master : Scan → Result (List Entry) → Result Scan
as_master s r = do es ← r; ok (record s { masters = es })

abbrev as_replica : Scan → Result (List Entry) → Result Scan
as_replica s r = do es ← r; ok (record s { replicas = es })

-- `match (index, item)`; `*i as u16` keeps the low 16 bits.
pub scan_item : ℕ → ValkeyFrame → Scan → Result Scan
unfolding build_slot_to_server
scan_item zero (integer i) s = ok (record s { start = i % 2 ^ 16 })
scan_item (suc zero) (integer i) s = ok (record s { stop = i % 2 ^ 16 })
scan_item (suc (suc zero)) (array master) s =
    as_master s (build_slot_to_server (to_list master) s.masters s.start s.stop)
scan_item index (array replica) s =
    as_replica s (build_slot_to_server (to_list replica) s.replicas s.start s.stop)
scan_item index item s = err "unexpected value in slot map"

pub scan_items : ℕ → List ValkeyFrame → Scan → Result Scan
scan_items index [] s = ok s
scan_items index (item ∷ items) s = do s' ← scan_item index item s; scan_items (suc index) items s'

pub scan_results : List ValkeyFrame → List Entry → List Entry → Result (List Entry × List Entry)
scan_results [] masters replicas = ok (masters, replicas)
scan_results (array result ∷ results) masters replicas = do
  s ←
      scan_items 0 (to_list result)
        (record { start = 0; stop = 0; masters = masters; replicas = replicas })
  scan_results results s.masters s.replicas
scan_results (_ ∷ results) masters replicas = err "unexpected value in slot map"

unfoldable pub parse_slots : List ValkeyFrame → Result SlotMap
parse_slots results = do
  (masters, replicas) ← scan_results results [] []
  if is_empty masters then err "empty slot map!" else ok (from_entries masters replicas)

-- A node as the server names it: its address and its port, an `i64`.
abbrev pub Node : Type 0
Node = Bytes × ℕ

pub record Range : Type 0 where
  pub start : ℕ
  pub stop : ℕ
  pub master : Node
  pub replicas : List Node

-- The frames of a node behind which the server puts its id, or more.
abbrev pub node_frame : Node → ValkeyFrame
node_frame (ip, port) = array (of_list (bulk_string ip ∷ integer port ∷ bulk_string [] ∷ []))

abbrev pub range_frame : Range → ValkeyFrame
range_frame r =
    array
      (of_list (integer r.start ∷ integer r.stop ∷ node_frame r.master ∷ map node_frame r.replicas))

abbrev pub entry_of : ℕ → ℕ → Node → Entry
entry_of start stop (ip, port) = record { host = address ip port; start = start; stop = stop }

abbrev pub IsNode : Node → Type 0
IsNode (ip, port) = (is_utf8 ip ≡ true) × (is_empty ip ≡ false)

abbrev pub IsRange : Range → Type 0
IsRange r = (r.start ≤ r.stop) × (r.stop < 2 ^ 16) × IsNode r.master × All IsNode r.replicas

abbrev pub master_entries : List Range → List Entry
master_entries [] = []
master_entries (r ∷ rs) = entry_of r.start r.stop r.master ∷ master_entries rs

abbrev pub replica_entries : List Range → List Entry
replica_entries [] = []
replica_entries (r ∷ rs) = map (entry_of r.start r.stop) r.replicas ++ replica_entries rs

build_node :
    (n : Node) (es : List Entry) (start stop : ℕ)
    → IsNode n
    → start ≤ stop
    → build_slot_to_server
        (to_list (of_list (bulk_string n.0 ∷ integer n.1 ∷ bulk_string [] ∷ [])))
        es
        start
        stop
      ≡ ok (es ++ entry_of start stop n ∷ [])
unfolding build_slot_to_server
build_node (ip, port) es start stop (utf, full) h =
    let t : leb start stop ≡ true = ground arith in
    rw (to_list-of_list (bulk_string ip ∷ integer port ∷ bulk_string [] ∷ []), t, utf, full) refl

scan_replicas :
    (ns : List Node) (i : ℕ) (s : Scan)
    → All IsNode ns
    → s.start ≤ s.stop
    → scan_items (suc (suc (suc i))) (map node_frame ns) s
      ≡ ok (record s { replicas = s.replicas ++ map (entry_of s.start s.stop) ns })
unfolding scan_items scan_item
scan_replicas [] i s h le =
    ap (λ (l : List Entry). ok (record s { replicas = l })) (sym (append-nil s.replicas))
scan_replicas (n ∷ ns) i s h le =
    let more : List Entry = s.replicas ++ entry_of s.start s.stop n ∷ [] in
    let s' : Scan = record s { replicas = more } in
    rw (build_node n s.replicas s.start s.stop h.0 le, ◌>>=◌)
      (scan_replicas ns (suc i) s' h.1 le
        ∙ ap (λ (l : List Entry). ok (record s { replicas = l }))
            (append_assoc s.replicas (entry_of s.start s.stop n ∷ [])
              (map (entry_of s.start s.stop) ns)))

scan_range :
    (r : Range) (masters replicas : List Entry)
    → IsRange r
    → scan_items 0
        (integer r.start ∷ integer r.stop ∷ node_frame r.master ∷ map node_frame r.replicas)
        (record { start = 0; stop = 0; masters = masters; replicas = replicas })
      ≡ ok (record {
        start = r.start;
        stop = r.stop;
        masters = masters ++ entry_of r.start r.stop r.master ∷ [];
        replicas = replicas ++ map (entry_of r.start r.stop) r.replicas;
      })
unfolding scan_items scan_item
scan_range r masters replicas (le, fits, m, ns) =
    let low : r.start % 2 ^ 16 ≡ r.start = omega arith in
    let high : r.stop % 2 ^ 16 ≡ r.stop = omega arith in
    rw (low, high, build_node r.master masters r.start r.stop m le, ◌>>=◌)
      (scan_replicas r.replicas 0
        (record {
          start = r.start;
          stop = r.stop;
          masters = masters ++ entry_of r.start r.stop r.master ∷ [];
          replicas = replicas;
        })
        ns le)

scan_ranges :
    (rs : List Range) (masters replicas : List Entry)
    → All IsRange rs
    → scan_results (map range_frame rs) masters replicas
      ≡ ok (masters ++ master_entries rs, replicas ++ replica_entries rs)
unfolding scan_results
scan_ranges [] masters replicas h = rw (append-nil masters, append-nil replicas) refl
scan_ranges (r ∷ rs) masters replicas (h, hs) =
    let items : List ValkeyFrame =
      integer r.start ∷ integer r.stop ∷ node_frame r.master ∷ map node_frame r.replicas in
    let front : List Entry = entry_of r.start r.stop r.master ∷ [] in
    let behind : List Entry = map (entry_of r.start r.stop) r.replicas in
    rw
      (
        to_list-of_list items,
        scan_range r masters replicas h,
        ◌>>=◌,
        scan_ranges rs (masters ++ front) (replicas ++ behind) hs,
        append_assoc masters front (master_entries rs),
        append_assoc replicas behind (replica_entries rs),
      )
      refl

-- For every table of one or more ranges whose slots fit 16 bits and whose addresses are UTF-8 and
-- not empty: parsing the frames of the table gives the slot map of exactly its masters and replicas.
pub parse_slots-range_frame :
    (r : Range) (rs : List Range)
    → All IsRange (r ∷ rs)
    → parse_slots (map range_frame (r ∷ rs))
      ≡ ok (from_entries (master_entries (r ∷ rs)) (replica_entries (r ∷ rs)))
unfolding parse_slots
parse_slots-range_frame r rs h = rw (scan_ranges (r ∷ rs) [] [] h, ◌>>=◌) refl

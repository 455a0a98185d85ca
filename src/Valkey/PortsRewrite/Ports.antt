-- ===== src/Valkey/PortsRewrite/Ports.antt =====
-- What rewriting does to addresses.
use shotover_proxy.Prelude.{
  ℕ, ◌≡◌, ◌≢◌, refl, ap, ◌∙◌, true, false, ◌||◌, List, [], ◌∷◌, ◌++◌, Bytes, map, some, Result, ok,
  map_results, All, ◌==◌, arith, digits, map_get, map_insert, map_remove,
}
use shotover_proxy.Valkey.Frame.{ValkeyFrame, array, to_list, of_list, to_list-of_list}
use shotover_proxy.Message.Frame.{Protocols, Frame, valkey_frame}
use shotover_proxy.Message.State.{Message, frame, edit, invalidate_cache}
use shotover_proxy.Valkey.Cluster.Slots.{from_entries}
use shotover_proxy.Valkey.Cluster.Slots.Parse.{
  Node, Range, node_frame, range_frame, IsNode, IsRange, parse_slots, master_entries,
  replica_entries, parse_slots-range_frame,
}
use shotover_proxy.Valkey.PortsRewrite.{
  rewrite_target, rewrite_items, rewrite_slot, rewrite_port_slot, split_address, joined_address,
  rewrite_address, PortsRewrite, cluster_slot, transform, note_requests, remember,
  rewrite_responses, is_cluster_slots, is_cluster_nodes, type_of, forget,
}

abbrev pub node_at : ℕ → Node → Node
node_at p (ip, port) = (ip, p)

-- A range whose nodes all have the port.
abbrev pub range_at : ℕ → Range → Range
range_at p r = record r { master = node_at p r.master; replicas = map (node_at p) r.replicas }

rewrite_target-node_frame :
    (p : ℕ) (n : Node) → rewrite_target p (node_frame n) ≡ ok (node_frame (node_at p n))
unfolding rewrite_target to_list of_list
rewrite_target-node_frame p (ip, port) = refl

rewrite_targets-node_frame :
    (p : ℕ) (ns : List Node)
    → map_results (rewrite_target p) (map node_frame ns) ≡ ok (map node_frame (map (node_at p) ns))
unfolding map_results
rewrite_targets-node_frame p [] = refl
rewrite_targets-node_frame p (n ∷ ns) =
    rw (rewrite_target-node_frame p n, rewrite_targets-node_frame p ns) refl

rewrite_slot-range_frame :
    (p : ℕ) (r : Range) → rewrite_slot p (range_frame r) ≡ ok (range_frame (range_at p r))
unfolding rewrite_slot rewrite_items map_results to_list of_list
rewrite_slot-range_frame p r =
    rw (to_list-of_list (map node_frame r.replicas), rewrite_targets-node_frame p r.replicas) refl

rewrite_slots-range_frame :
    (p : ℕ) (rs : List Range)
    → map_results (rewrite_slot p) (map range_frame rs) ≡ ok (map range_frame (map (range_at p) rs))
unfolding map_results
rewrite_slots-range_frame p [] = refl
rewrite_slots-range_frame p (r ∷ rs) =
    rw (rewrite_slot-range_frame p r, rewrite_slots-range_frame p rs) refl

IsRange-range_at : (p : ℕ) (rs : List Range) → All IsRange rs → All IsRange (map (range_at p) rs)
IsRange-range_at p [] h = tt
IsRange-range_at p (r ∷ rs) ((a, b, m, n), hs) =
    ((a, b, m, nodes r.replicas n), IsRange-range_at p rs hs)
  where
    nodes : (ns : List Node) → All IsNode ns → All IsNode (map (node_at p) ns)
    nodes [] h = tt
    nodes (n ∷ ns) h = (h.0, nodes ns h.1)

-- A word without a separator.
abbrev pub IsWord : Bytes → Type 0
IsWord bs = All (λ x. (x ≢ b':') × (x ≢ b'@')) bs

split_address-word :
    (word : Bytes) (c : ℕ) (rest : Bytes)
    → ((c == b':') || (c == b'@')) ≡ true
    → IsWord word
    → split_address (word ++ (c ∷ rest)) ≡ word ∷ split_address rest
unfolding split_address
split_address-word [] c rest sep h = rw sep refl
split_address-word (x ∷ word) c rest sep ((no_colon, no_at), h) =
    let no : ((x == b':') || (x == b'@')) ≡ false = ground arith in
    rw (no, split_address-word word c rest sep h) refl

split_address-last : (word : Bytes) → IsWord word → split_address word ≡ word ∷ []
unfolding split_address
split_address-last [] h = refl
split_address-last (x ∷ word) ((no_colon, no_at), h) =
    let no : ((x == b':') || (x == b'@')) ≡ false = ground arith in
    rw (no, split_address-last word h) refl

-- For an ip, a port and a bus port without a colon or an at sign: the address `ip:port@bus_port` of a
-- CLUSTER NODES response becomes `ip:new_port@bus_port`.
pub rewrite_address-new_port :
    (new_port : ℕ) (ip port bus : Bytes)
    → IsWord ip
    → IsWord port
    → IsWord bus
    → rewrite_address new_port (ip ++ (b':' ∷ (port ++ (b'@' ∷ bus))))
      ≡ ok (ip ++ (b':' ∷ (digits 5 new_port ++ (b'@' ∷ bus))))
unfolding rewrite_address
rewrite_address-new_port new_port ip port bus hi hp hb = ap (joined_address new_port) (
    split_address-word ip b':' (port ++ (b'@' ∷ bus)) refl hi
    ∙ ap (λ ws. ip ∷ ws)
        (split_address-word port b'@' bus refl hp
          ∙ ap (λ ws. port ∷ ws) (split_address-last bus hb)))

module _ (P : Protocols) (records : Bytes → List (Result (List Bytes)))
    (written : List (List Bytes) → Bytes) where
  abbrev pub table : List Range → Frame P
  table rs = valkey_frame (array (of_list (map range_frame rs)))

  abbrev pub fresh : ℕ → PortsRewrite P records written
  fresh p = record { new_port = p; request_type = [] }

  rewrite_port_slot-table :
      (p : ℕ) (rs : List Range)
      → rewrite_port_slot P records written p (table rs) ≡ ok (table (map (range_at p) rs))
  unfolding rewrite_port_slot
  rewrite_port_slot-table p rs =
      rw (to_list-of_list (map range_frame rs), rewrite_slots-range_frame p rs) refl

  same_id : (id : ℕ) → (id == id) ≡ true
  same_id id = ground arith

  note_requests-slots :
      (request request' : Message P) (f : Frame P)
      → frame P request ≡ ok (request', some f)
      → is_cluster_slots P records written f ≡ true
      → is_cluster_nodes P records written f ≡ false
      → note_requests P records written (request ∷ []) []
        ≡ ok (request' ∷ [], (request.id, cluster_slot) ∷ [])
  unfolding note_requests remember map_insert
  note_requests-slots request request' f seen slots nodes = rw (seen, slots, nodes) refl

  rewrite_responses-slots :
      (p id : ℕ) (response response' : Message P) (rs : List Range)
      → response.request_id ≡ some id
      → frame P response ≡ ok (response', some (table rs))
      → rewrite_responses P records written p (response ∷ []) ((id, cluster_slot) ∷ [])
        ≡ ok (invalidate_cache P (edit P (table (map (range_at p) rs)) response') ∷ [], [])
  unfolding rewrite_responses map_get map_remove
  rewrite_responses-slots p id response response' rs answers seen =
      let ty : type_of P records written response.request_id ((id, cluster_slot) ∷ [])
          ≡ some cluster_slot =
        rw (answers, same_id id) refl in
      let left : forget P records written response.request_id ((id, cluster_slot) ∷ []) ≡ [] =
        rw (answers, same_id id) refl in
      rw (ty, left, seen, rewrite_port_slot-table p rs) refl

  -- Let a transform that remembers nothing get one request, a CLUSTER SLOTS command, and the rest of the chain answer it with
  -- one or more ranges whose slots fit 16 bits and whose addresses are UTF-8 and not empty. Then the
  -- transform returns that one response with its cached bytes dropped and a changed frame; a cluster
  -- client parses the changed frame to the same ranges of slots and ips, each node with the new port;
  -- and nothing is remembered of the request.
  pub transform-slots :
      {W : Type 0} (next : W → List (Message P) → Result (W × List (Message P))) (p : ℕ) (w w' : W)
      (request request' response response' : Message P) (f : Frame P) (r : Range) (rs : List Range)
      → frame P request ≡ ok (request', some f)
      → is_cluster_slots P records written f ≡ true
      → is_cluster_nodes P records written f ≡ false
      → next w (request' ∷ []) ≡ ok (w', response ∷ [])
      → response.request_id ≡ some request.id
      → frame P response ≡ ok (response', some (table (r ∷ rs)))
      → All IsRange (r ∷ rs)
      → (slots : List ValkeyFrame) × (transform P records written next (fresh p) w (request ∷ [])
          ≡ ok (
            fresh p,
            w',
            invalidate_cache P (edit P (valkey_frame (array (of_list slots))) response') ∷ [],
          ))
        × (parse_slots slots
            ≡ ok (
                from_entries
                  (master_entries (map (range_at p) (r ∷ rs)))
                  (replica_entries (map (range_at p) (r ∷ rs)))))
  unfolding transform
  transform-slots next p w w' request request' response response' f r rs seen slots nodes answered
        id read ranges =
      (
        map range_frame (map (range_at p) (r ∷ rs)),
        rw
            (
              note_requests-slots request request' f seen slots nodes,
              answered,
              rewrite_responses-slots p request.id response response' (r ∷ rs) id read,
            )
            refl,
        parse_slots-range_frame (range_at p r) (map (range_at p) rs)
            (IsRange-range_at p (r ∷ rs) ranges),
      )

-- ===== src/Valkey/Cluster/Slots.antt =====
-- The slot map: `parse_slots`, `SlotMap::from_entries` and the lookup of `send_message_to_slot`.
pub mod Lookup
pub mod Parse
mod Tests
use mathlib.Core.Option
use shotover_proxy.Prelude.{
  ℕ, zero, suc, ◌+◌, ◌-◌, ◌/◌, ◌%◌, ◌^◌, Bool, true, false, ◌&&◌, ◌||◌, List, [], ◌∷◌, ◌++◌, Bytes,
  codes, bytes_eq, map, Option, none, some, Result, ok, err, ◌>>=◌, leb, ltb, ◌==◌, if◌then◌else◌,
  is_empty, length, anyb,
}
use shotover_proxy.Valkey.Frame.{ValkeyFrame, integer, bulk_string, array, to_list}

-- A `(String, u16, u16)`: the host and the ends of its range of slots.
pub record Entry : Type 0 where
  pub host : Bytes
  pub start : ℕ
  pub stop : ℕ

-- A `BTreeMap<u16, String>`, in the order of its keys.
abbrev pub SlotTree : Type 0
SlotTree = List (ℕ × Bytes)

unfoldable pub tree_insert : ℕ → Bytes → SlotTree → SlotTree
tree_insert k v [] = (k, v) ∷ []
tree_insert k v ((j, w) ∷ m) =
    let later = (j, w) ∷ tree_insert k v m in
    if ltb k j then (k, v) ∷ (j, w) ∷ m else if k == j then (k, v) ∷ m else later

-- `masters.range(&slot..).next()`
unfoldable pub range_first : ℕ → SlotTree → Option (ℕ × Bytes)
range_first slot [] = none
range_first slot ((j, w) ∷ m) = if leb slot j then some (j, w) else range_first slot m

pub record SlotMap : Type 0 where
  pub masters : SlotTree
  pub replicas : SlotTree
  pub nodes : List Bytes

-- `collect()` inserts in order, so that of equal keys the last one stays.
unfoldable pub insert_entries : List Entry → SlotTree → SlotTree
insert_entries [] m = m
insert_entries (e ∷ es) m = insert_entries es (tree_insert e.stop e.host m)

unfoldable pub to_interval_map : List Entry → SlotTree
unfolding insert_entries
to_interval_map es = insert_entries es []

-- A `HashSet` of hosts, as a list without repetitions.
unfoldable pub add_hosts : List Entry → List Bytes → List Bytes
add_hosts [] hosts = hosts
add_hosts (e ∷ es) hosts =
    add_hosts es (if anyb (bytes_eq e.host) hosts then hosts else hosts ++ e.host ∷ [])

pub from_entries : List Entry → List Entry → SlotMap
unfolding add_hosts to_interval_map
from_entries master_entries replica_entries = record {
  masters = to_interval_map master_entries;
  replicas = to_interval_map replica_entries;
  nodes = add_hosts (master_entries ++ replica_entries) [];
}

-- The master that `send_message_to_slot` sends to; `none` is the error response.
pub master_of : SlotMap → ℕ → Option Bytes
master_of slots slot = Option.map (λ e. e.1) (range_first slot slots.masters)

-- What a `MOVED` redirection does to the masters.
unfoldable pub moved : ℕ → Bytes → SlotMap → SlotMap
moved slot server slots = record slots { masters = tree_insert slot server slots.masters }

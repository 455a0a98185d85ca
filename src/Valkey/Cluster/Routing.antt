-- ===== src/Valkey/Cluster/Routing.antt =====
-- Where a command goes, and how the responses of several nodes become one.
pub mod Hashtag
pub mod Join
use mathlib.Core.Option
use shotover_proxy.Prelude.{
  ℕ, suc, ◌+◌, ◌-◌, ◌%◌, ◌^◌, Bool, true, false, ◌&&◌, ◌||◌, not, List, [], ◌∷◌, ◌++◌, Bytes,
  String, codes, bytes_eq, Option, none, some, Result, ok, err, ◌>>=◌, leb, ltb, ◌==◌,
  if◌then◌else◌, get_elem?, take, drop, is_empty, anyb,
}
use shotover_proxy.Valkey.Frame.{
  ValkeyFrame, simple_string, error, bulk_string, integer, array, null, to_list, of_list,
  to_ascii_uppercase,
}

abbrev pub slot_size : ℕ
slot_size = 16384

pub data ResponseJoin : Type 0 where
  first array_join integer_sum integer_min : ResponseJoin

pub data RoutingInfo : Type 0 where
  slot : ℕ → RoutingInfo
  auth : RoutingInfo
  all_nodes all_masters : ResponseJoin → RoutingInfo
  random unsupported short_circuit_ok short_circuit_nil : RoutingInfo

-- `iter().position(|v| *v == b)`
unfoldable pub position : ℕ → Bytes → Option ℕ
position b [] = none
position b (x ∷ xs) =
    let later : Option ℕ = Option.map suc (position b xs) in if x == b then some 0 else later

-- `&key[from..to]`
abbrev pub slice : Bytes → ℕ → ℕ → Bytes
slice key from to = take (to - from) (drop from key)

abbrev pub nonempty : Bytes → Option Bytes
nonempty rv = if is_empty rv then none else some rv

abbrev pub close_tag : Bytes → ℕ → Option ℕ → Option Bytes
close_tag key open_at none = none
close_tag key open_at (some close_at) = nonempty (slice key (open_at + 1) (open_at + close_at))

abbrev pub open_tag : Bytes → Option ℕ → Option Bytes
open_tag key none = none
open_tag key (some open_at) = close_tag key open_at (position b'}' (drop open_at key))

pub get_hashtag : Bytes → Option Bytes
get_hashtag key = open_tag key (position b'{' key)

-- `get_hashtag(key).unwrap_or(key)`
abbrev pub hashed_part : Bytes → Option Bytes → Bytes
hashed_part key none = key
hashed_part key (some tag) = tag

-- `name` is one of these.
abbrev one_of : Bytes → List String → Bool
one_of name [] = false
one_of name (s ∷ ss) = bytes_eq name (codes s) || one_of name ss

abbrev pub or_unsupported : Option RoutingInfo → RoutingInfo
or_unsupported none = unsupported
or_unsupported (some info) = info

-- The place of the first frame that says `STREAMS`.
abbrev is_streams : ValkeyFrame → Bool
is_streams (bulk_string a) = bytes_eq (to_ascii_uppercase a) (codes "STREAMS")
is_streams _ = false

unfoldable pub after_streams : List ValkeyFrame → Option ValkeyFrame
after_streams [] = none
after_streams (f ∷ fs) =
    let later = after_streams fs in if is_streams f then get_elem? fs 0 else later

-- `crc16` is the `crc16::State::<crc16::XMODEM>::calculate` of the crate of that name.
module _ (crc16 : Bytes → ℕ) where
  unfoldable pub for_key : ValkeyFrame → Option RoutingInfo
  for_key (bulk_string key) = some (slot (crc16 (hashed_part key (get_hashtag key)) % slot_size))
  for_key _ = none

  -- `args.get(i).and_then(RoutingInfo::for_key)`
  abbrev key_at : Option ValkeyFrame → RoutingInfo
  key_at none = unsupported
  key_at (some frame) = or_unsupported (for_key frame)

  abbrev for_script : Option ValkeyFrame → RoutingInfo
  for_script (some (bulk_string a)) =
      if bytes_eq (to_ascii_uppercase a) (codes "KILL") then unsupported else all_masters first
  for_script _ = all_masters first

  abbrev for_client : Option ValkeyFrame → RoutingInfo
  for_client (some (bulk_string sub)) =
      if bytes_eq (to_ascii_uppercase sub) (codes "SETNAME")
      then short_circuit_ok
      else if bytes_eq (to_ascii_uppercase sub) (codes "GETNAME")
      then short_circuit_nil
      else unsupported
  for_client _ = random

  abbrev for_eval : List ValkeyFrame → Option ValkeyFrame → RoutingInfo
  for_eval args (some (bulk_string key_count)) =
      if bytes_eq key_count (codes "0") then random else key_at (get_elem? args 3)
  for_eval args _ = unsupported

  abbrev for_other : Option ValkeyFrame → RoutingInfo
  for_other none = random
  for_other (some key) = or_unsupported (for_key key)

  -- `match command_name.as_slice()`
  unfoldable pub for_command : Bytes → List ValkeyFrame → RoutingInfo
  unfolding bytes_eq to_ascii_uppercase
  for_command name args =
      if one_of name ("FLUSHALL" ∷ "FLUSHDB" ∷ [])
      then all_masters first
      else if one_of name ("DBSIZE" ∷ [])
      then all_masters integer_sum
      else if one_of name ("KEYS" ∷ [])
      then all_masters array_join
      else if one_of name ("LASTSAVE" ∷ [])
      then all_nodes integer_min
      else if one_of name ("BGSAVE" ∷ "SAVE" ∷ "BGREWRITEAOF" ∷ "ACL" ∷ [])
      then all_nodes first
      else if one_of name ("SCRIPT" ∷ [])
      then for_script (get_elem? args 1)
      else if one_of name ("CLIENT" ∷ [])
      then for_client (get_elem? args 1)
      else if one_of name (
          "SCAN" ∷ "SHUTDOWN" ∷ "SLAVEOF" ∷ "REPLICAOF" ∷ "MOVE" ∷ "BITOP" ∷ "CONFIG" ∷ "SLOWLOG"
          ∷ "INFO" ∷ "TIME" ∷ [])
      then unsupported
      else if one_of name ("EVALSHA" ∷ "EVAL" ∷ [])
      then for_eval args (get_elem? args 2)
      else if one_of name ("XGROUP" ∷ "XINFO" ∷ [])
      then key_at (get_elem? args 2)
      else if one_of name ("XREAD" ∷ "XREADGROUP" ∷ [])
      then key_at (after_streams args)
      else if one_of name ("AUTH" ∷ [])
      then auth
      else if one_of name ("ECHO" ∷ "PING" ∷ [])
      then random
      else if one_of name ("HELLO" ∷ [])
      then unsupported
      else for_other (get_elem? args 1)

  unfoldable pub for_command_frame : List ValkeyFrame → Result RoutingInfo
  unfolding for_command
  for_command_frame (bulk_string name ∷ args) =
      ok (for_command (to_ascii_uppercase name) (bulk_string name ∷ args))
  for_command_frame _ = err "syntax error: bad command name"

unfoldable pub response_join : RoutingInfo → ResponseJoin
response_join (all_masters j) = j
response_join (all_nodes j) = j
response_join _ = first

-- The order of `i64`, on bit patterns.
abbrev pub i64_key : ℕ → ℕ
i64_key i = (i + 2 ^ 63) % 2 ^ 64

pub integers : (ℕ → ℕ → ℕ) → ValkeyFrame → ValkeyFrame → ValkeyFrame
integers f (integer prev) (integer next) = integer (f prev next)
integers f _ _ = error (codes "One of the valkey frames was not an integer")

-- `prev + next` wraps, as in a release build; a debug build panics on overflow.
abbrev pub i64_add : ℕ → ℕ → ℕ
i64_add prev next = (prev + next) % 2 ^ 64

abbrev pub i64_min : ℕ → ℕ → ℕ
i64_min prev next = if leb (i64_key prev) (i64_key next) then prev else next

pub arrays : ValkeyFrame → ValkeyFrame → ValkeyFrame
unfolding to_list of_list
arrays (array prev) (array next) = array (of_list (to_list prev ++ to_list next))
arrays _ _ = error (codes "One of the valkey frames was not an array")

unfoldable pub join : ResponseJoin → ValkeyFrame → ValkeyFrame → ValkeyFrame
unfolding integers arrays
join integer_min prev next = integers i64_min prev next
join integer_sum prev next = integers i64_add prev next
join array_join prev next = arrays prev next
join first prev next = prev

-- One node's answer, when the sink waits for several: a frame, or the text of an error.
pub data NodeResponse : Type 0 where
  answered : ValkeyFrame → NodeResponse
  failed : Bytes → NodeResponse

abbrev frame_of : NodeResponse → ValkeyFrame
frame_of (answered f) = f
frame_of (failed e) = error e

-- The fold of `send_message_to_channels`: an error stays, everything else is joined.
unfoldable pub collate : ResponseJoin → Option ValkeyFrame → List NodeResponse → Option ValkeyFrame
collate j acc [] = acc
collate j (some (error e)) (r ∷ rs) = collate j (some (error e)) rs
collate j none (r ∷ rs) = collate j (some (frame_of r)) rs
collate j (some prev) (answered f ∷ rs) = collate j (some (join j prev f)) rs
collate j (some prev) (failed e ∷ rs) = collate j (some (error e)) rs
